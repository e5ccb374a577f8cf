-- ===== src/Ext2Vol.antt =====
-- The ext2 volume of kernel/fs/chaseros/chaseros_ext2_vol.c: one block group of 1 KiB blocks on a
-- RAM disk, an IDE drive or an AHCI port.
pub mod Bytes
pub mod Volume
pub mod Dirent
pub mod Inode
pub mod Files
pub mod Write
pub mod Format
pub mod Fields
pub mod Entries
pub mod PutEntry
pub mod Append
pub mod Fresh
pub mod Rounds
pub mod Allocs
pub mod Window
pub mod Range
pub mod Ram
pub mod Counts
pub mod Stored
pub mod Store
pub mod Inodes
pub mod Saved
pub mod Root
pub mod RootFile
pub mod NewFile
pub mod Create
pub mod Blank
pub mod FreshRoot
pub mod Layout
pub mod Formatted
mod Tests
