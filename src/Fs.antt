-- ===== src/Fs.antt =====
-- The file system layer, fs/: the device interface of fs/dev.c, the buffer cache of fs/block.c, the
-- bits of fs/bitmap.c, the inodes of fs/inode.c, the descriptors, transfers and attributes of
-- fs/file.c, the directories of fs/dir.c, and the paths and links of fs/paths.c, fs/krealpath.c and
-- fs/link.c.
pub mod Dev
pub mod Block
pub mod Bitmap
pub mod Inode
pub mod Descriptor
pub mod Directory
pub mod File
pub mod Path
pub mod Lookup
pub mod Attribute
