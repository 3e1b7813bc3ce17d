-- ===== src/Vfs.antt =====
-- fs/vfs.c: the virtual file system. Paths are made canonical (Path), the mount that a path is under is
-- found (Mount), and open files are counted and closed (File). The other modules hold the theorems.
pub mod Path
pub mod Mount
pub mod File
pub mod Tokens
pub mod Canonical
pub mod Longest
pub mod Mounting
pub mod References
pub mod Closing
mod Tests
