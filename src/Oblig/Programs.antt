-- ===== src/Oblig/Programs.antt =====
-- The programs of oblig/: each sets up a disk or loads one, and calls oblig/inode.c.
pub mod Create
pub mod Load
pub mod Delete
