-- ===== src/Ext2.antt =====
-- fs/ext2: the second extended filesystem. Store is the device and the bytes of a block, Inode the inode
-- table, File the reading of a file, Alloc and Map the allocators and the growing block map, Write the
-- writing of a file, Dir and Place the directories, Mount the superblock. The other modules hold the
-- theorems and their lemmas.
pub mod Store
pub mod Inode
pub mod File
pub mod Bytes
pub mod Tree
pub mod Parts
pub mod Reading
pub mod Mount
pub mod Alloc
pub mod Allocating
pub mod Commit
pub mod Fresh
pub mod Map
pub mod Sizes
pub mod Mapping
pub mod Write
pub mod Stored
pub mod Writing
pub mod Dir
pub mod Lookup
pub mod Walking
pub mod Place
pub mod Placing
pub mod Placed
pub mod Blocks
mod Tests
