-- ===== src/Fs/Inode.antt =====
-- include/ox/fs/inode.h: the inode, with a C string as the list of its characters before the NUL. A
-- `char` that serves as a flag is a number, true where it is not 0.
pub mod Permission
pub mod Master
pub mod Device
pub mod Map
pub mod Volume
use ox.Base.{ℕ, ◌-◌, ◌^◌, List}

abbrev pub inode_null : ℕ
inode_null = 0

-- INODE_NOPOS, -1 of an `int` or of a `block_t`.
abbrev pub inode_nopos : ℕ
inode_nopos = 2 ^ 32 - 1

abbrev pub inode_magic : ℕ
inode_magic = 1925

abbrev pub inode_nr_pass : ℕ
inode_nr_pass = 2

abbrev pub inode_nr_dev : ℕ
inode_nr_dev = 16

-- BLOCK_START.
abbrev pub first_block : ℕ
first_block = 4096

abbrev pub twomeg : ℕ
twomeg = 2097152

-- DEV_BLOCK_SIZE.
abbrev pub block_size : ℕ
block_size = 512

-- EACCES of sys/errno.h.
abbrev pub eacces : ℕ
eacces = 13

-- `inode_mode_t`.
pub data Mode : Type 0 where
  invalid_mode create_file create_dir create_symlink create_hardlink : Mode
  read_only write_only execute_only rw rx wx rwx dont_check : Mode

-- `inode_rtvl_t`.
pub data InodeRtvl : Type 0 where
  inode_ok inode_fail inode_param file_not_found invalid_path exists inconsistent init_needed :
      InodeRtvl

pub record Inode : Type 0 where
  pub user_read : ℕ
  pub user_write : ℕ
  pub user_execute : ℕ
  pub group_read : ℕ
  pub group_write : ℕ
  pub group_execute : ℕ
  pub world_read : ℕ
  pub world_write : ℕ
  pub world_execute : ℕ
  pub is_directory : ℕ
  pub is_device : ℕ
  pub is_file : ℕ
  pub is_symlink : ℕ
  pub is_hardlink : ℕ
  pub create_time : ℕ
  pub modified_time : ℕ
  pub accessed_time : ℕ
  pub self : ℕ
  pub parent : ℕ
  pub size : ℕ
  pub pos : ℕ
  pub current : ℕ
  pub current_parent : ℕ
  pub iblock : ℕ
  pub dev : ℕ
  pub o_mode : ℕ
  pub group : ℕ
  pub owner : ℕ
  pub refcount : ℕ
  pub path : List ℕ
  pub next : ℕ
