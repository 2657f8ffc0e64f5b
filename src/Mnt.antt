-- ===== src/Mnt.antt =====
-- The mount tree: src/mnt.
pub mod Tree
pub mod Filesystems
pub mod Context
pub mod Super
pub mod Mount
pub mod Flags
pub mod Pseudo
