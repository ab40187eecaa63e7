-- ===== src/Fs/Inode/Permission/Tests.antt =====
-- The permissions of fs/inode.c on one inode.
use ox.Base.{◌≡◌, refl, arith, true, []}
use ox.Fs.Inode.{Inode, rw}
use ox.Fs.Inode.Permission.{inode_set_permissions, inode_check_permissions}
use ox.Fs.Inode.Permission.Bits.{Flags, inode_set_permissions-Flags}
use ox.Fs.Inode.Permission.Check.{asks, is_access, allowed, inode_check_permissions-allowed}

-- The owner 5 may read and write, the group 6 may read.
abbrev shared_file : Inode
shared_file = record {
  user_read = 1;
  user_write = 1;
  user_execute = 0;
  group_read = 1;
  group_write = 0;
  group_execute = 0;
  world_read = 0;
  world_write = 0;
  world_execute = 0;
  is_directory = 0;
  is_device = 0;
  is_file = 1;
  is_symlink = 0;
  is_hardlink = 0;
  create_time = 0;
  modified_time = 0;
  accessed_time = 0;
  self = 0;
  parent = 0;
  size = 0;
  pos = 0;
  current = 0;
  current_parent = 0;
  iblock = 0;
  dev = 0;
  o_mode = 0;
  group = 6;
  owner = 5;
  refcount = 0;
  path = [];
  next = 0;
}

inode_set_permissions-Flags_example :
    Flags 0o644 0o022 (inode_set_permissions shared_file 0o644 0o022)
inode_set_permissions-Flags_example =
    inode_set_permissions-Flags shared_file 0o644 0o022 (omega arith)

rw-is_access : is_access rw ≡ true
unfolding is_access asks
rw-is_access = refl

inode_check_permissions-allowed_example :
    inode_check_permissions shared_file 6 4 rw ≡ allowed shared_file 6 4 rw
inode_check_permissions-allowed_example =
    inode_check_permissions-allowed shared_file 6 4 rw rw-is_access
