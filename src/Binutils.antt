-- ===== src/Binutils.antt =====
-- binutils: the assembler and the linker, a module for each of their parts.
pub mod Text
pub mod Result
pub mod Token
pub mod Constants
pub mod Labels
pub mod Keywords
pub mod Asm
pub mod Section
pub mod Link
pub mod Assemble
pub mod Dict
pub mod Reach
pub mod Sort
mod Tests
