-- ===== src/File.antt =====
-- The open-file layer: src/file, src/api/{open,close,read,write,lseek}.c.
pub mod Ref
pub mod Open
pub mod Table
pub mod Calls
pub mod Getdents
mod Tests
