-- ===== src/Kernel/Tests.antt =====
-- software/kernel: runs of the parts of the kernel, and instances of the theorems about them.
mod Devices
mod Files
mod Library
mod Processes
