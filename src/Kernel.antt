-- ===== src/Kernel.antt =====
-- software/kernel: the kernel of the machine, a module for each of its parts.
pub mod Uart
pub mod Mmu
pub mod Frame
pub mod Os
pub mod Disk
pub mod Klib
pub mod Shell
pub mod Directory
pub mod Interrupts
pub mod Load
pub mod Syscall
mod Tests
