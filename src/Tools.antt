-- ===== src/Tools.antt =====
-- tools: the programs that prepare the storage of the machine.
pub mod Mkfs
mod Tests
