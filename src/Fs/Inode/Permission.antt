-- ===== src/Fs/Inode/Permission.antt =====
-- The permissions of fs/inode.c.
pub mod Bits
mod Tests
pub mod Check
use ox.Base.{
  ℕ, zero, suc, ◌*◌, ◌%◌, ◌^◌, Bool, true, false, ◌&&◌, ◌||◌, not, ◌==◌, if◌then◌else◌, bit_and,
  bit_or,
}
use ox.Fs.Inode.{
  Inode, Mode, invalid_mode, read_only, write_only, execute_only, rw, rx, wx, rwx, dont_check,
}

-- `S_IRUSR`, `S_IWUSR`, `S_IXUSR` and the masks of the other classes.
abbrev pub s_irusr : ℕ
s_irusr = 256

abbrev pub s_iwusr : ℕ
s_iwusr = 128

abbrev pub s_ixusr : ℕ
s_ixusr = 64

abbrev pub s_irwxu : ℕ
s_irwxu = 448

-- `mask & perm` as a condition, and a flag of an inode as one.
abbrev pub masked : ℕ → ℕ → Bool
masked mask perm = not (bit_and mask perm == 0)

abbrev pub set : ℕ → Bool
set flag = not (flag == 0)

abbrev pub flag : Bool → ℕ
flag b = if b then 1 else 0

pub inode_get_mode : ℕ → ℕ → Mode
inode_get_mode perm0 umask =
    let perm = bit_or perm0 umask in
    if masked s_irusr perm && masked s_iwusr perm && masked s_ixusr perm
    then rwx
    else if masked s_iwusr perm && masked s_ixusr perm
    then wx
    else if masked s_irusr perm && masked s_ixusr perm
    then rx
    else if masked s_irusr perm && masked s_iwusr perm
    then rw
    else if masked s_ixusr perm
    then execute_only
    else if masked s_iwusr perm
    then write_only
    else if masked s_irusr perm
    then read_only
    else invalid_mode

-- The rounds of the loop of inode_get_mode_from_all.
pub mode_rounds : ℕ → ℕ → Mode
mode_rounds zero perm = invalid_mode
mode_rounds (suc n) perm =
    let later = mode_rounds n (perm * 8 % 2 ^ 32) in
    if masked s_irwxu perm
    then rwx
    else if masked s_iwusr perm && masked s_ixusr perm
    then wx
    else if masked s_irusr perm && masked s_ixusr perm
    then rx
    else if masked s_irusr perm && masked s_iwusr perm
    then rw
    else if masked s_ixusr perm
    then execute_only
    else if masked s_iwusr perm
    then write_only
    else if masked s_irusr perm
    then read_only
    else later

pub inode_get_mode_from_all : ℕ → ℕ → Mode
inode_get_mode_from_all perm umask = mode_rounds 3 (bit_or perm umask)

-- What the branches of inode_set_permissions store for a class: read, write, execute.
pub class_flags : Mode → ℕ × ℕ × ℕ
class_flags read_only = (1, 0, 0)
class_flags write_only = (0, 1, 0)
class_flags execute_only = (0, 0, 1)
class_flags rw = (1, 1, 0)
class_flags rx = (1, 0, 1)
class_flags wx = (0, 1, 1)
class_flags rwx = (1, 1, 1)
class_flags _ = (0, 0, 0)

pub inode_set_permissions : Inode → ℕ → ℕ → Inode
inode_set_permissions inode perm umask =
    let user = class_flags (inode_get_mode perm umask) in
    let perm' = perm * 8 % 2 ^ 32 in
    let group = class_flags (inode_get_mode perm' umask) in
    let world = class_flags (inode_get_mode (perm' * 8 % 2 ^ 32) umask) in
    record inode {
      user_read = user.0;
      user_write = user.1;
      user_execute = user.2;
      group_read = group.0;
      group_write = group.1;
      group_execute = group.2;
      world_read = world.0;
      world_write = world.1;
      world_execute = world.2;
    }

-- `if(flag) { perm |= mask; }`.
abbrev pub add : ℕ → ℕ → ℕ → ℕ
add flag mask perm = if set flag then bit_or perm mask else perm

pub inode_get_permissions : Inode → ℕ
inode_get_permissions i =
    let user = add i.user_execute 64 (add i.user_write 128 (add i.user_read 256 0)) in
    let group = add i.group_execute 8 (add i.group_write 16 (add i.group_read 32 user)) in
    let world = add i.world_execute 1 (add i.world_write 2 (add i.world_read 4 group)) in
    let kind = add i.is_symlink 40960 (add i.is_directory 16384 world) in
    if set i.is_hardlink || set i.is_file then bit_or kind 32768 else kind

-- A branch of inode_check_permissions, for what the mode asks of a class.
abbrev pub granted : Inode → ℕ → ℕ → Bool → Bool → Bool → Bool
granted i group owner user_class group_class world_class =
    if (owner == i.owner) && user_class
    then true
    else if (group == i.group) && group_class
    then true
    else if world_class
    then true
    else false

pub inode_check_permissions : Inode → ℕ → ℕ → Mode → Bool
inode_check_permissions i group owner dont_check = true
inode_check_permissions i group owner read_only =
    granted i group owner (set i.user_read) (set i.group_read) (set i.world_read)
inode_check_permissions i group owner write_only =
    granted i group owner (set i.user_write) (set i.group_write) (set i.world_write)
inode_check_permissions i group owner execute_only =
    granted i group owner (set i.user_execute) (set i.group_execute) (set i.world_execute)
inode_check_permissions i group owner rw =
    granted i group owner (set i.user_read && set i.user_write)
      (set i.group_read && set i.group_write) (set i.world_read && set i.world_write)
inode_check_permissions i group owner rx =
    granted i group owner (set i.user_read && set i.user_execute)
      (set i.group_read && set i.group_execute) (set i.world_read && set i.world_execute)
inode_check_permissions i group owner wx =
    granted i group owner (set i.user_write && set i.user_execute)
      (set i.group_write && set i.group_execute) (set i.world_write && set i.world_execute)
inode_check_permissions i group owner rwx =
    granted i group owner (set i.user_read && set i.user_write && set i.user_execute)
      (set i.group_read && set i.group_write && set i.group_execute)
      (set i.world_read && set i.world_write && set i.world_execute)
inode_check_permissions i group owner _ = false
