-- ===== src/Oblig.antt =====
-- oblig/: a simulated file system. `Allocation` is the block allocation table, `Inode` the tree
-- of inodes over it.
pub mod Allocation
pub mod Blocks
pub mod Directory
mod Examples
mod TreeExamples
mod ProgramExamples
pub mod Inode
pub mod System
pub mod Programs
pub mod Table
pub mod Tree
