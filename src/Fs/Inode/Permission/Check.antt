-- ===== src/Fs/Inode/Permission/Check.antt =====
-- The check of an operation against the permissions, in fs/inode.c.
use ox.Base.{ℕ, ◌≡◌, refl, Bool, true, false, ◌&&◌, ◌||◌, not, ◌==◌, arith}
use ox.Fs.Inode.{Inode, Mode, read_only, write_only, execute_only, rw, rx, wx, rwx, dont_check}
use ox.Fs.Inode.Permission.{inode_check_permissions, inode_set_permissions, set}

-- What a mode asks for: to read, to write, to execute.
unfoldable pub asks : Mode → Bool × Bool × Bool
asks read_only = (true, false, false)
asks write_only = (false, true, false)
asks execute_only = (false, false, true)
asks rw = (true, true, false)
asks rx = (true, false, true)
asks wx = (false, true, true)
asks rwx = (true, true, true)
asks _ = (false, false, false)

-- A class gives all that is asked for.
abbrev gives : Bool × Bool × Bool → ℕ → ℕ → ℕ → Bool
gives (r, w, x) may_read may_write may_execute =
    (not r || set may_read) && (not w || set may_write) && (not x || set may_execute)

-- The classes that a caller is in, one of which has to give all that is asked for.
unfoldable pub allowed : Inode → ℕ → ℕ → Mode → Bool
allowed i group owner mode =
    ((owner == i.owner) && gives (asks mode) i.user_read i.user_write i.user_execute)
    || ((group == i.group) && gives (asks mode) i.group_read i.group_write i.group_execute)
    || gives (asks mode) i.world_read i.world_write i.world_execute

-- The modes of an operation on a file.
unfoldable pub is_access : Mode → Bool
is_access mode = (asks mode).0 || (asks mode).1 || (asks mode).2

-- For each mode that asks to read, write or execute: inode_check_permissions agrees with the rule
-- that one of the classes of the caller, which are the owner's, the group's and everybody's,
-- gives all that is asked for.
pub inode_check_permissions-allowed :
    (i : Inode) (group owner : ℕ) (mode : Mode)
    → is_access mode ≡ true
    → inode_check_permissions i group owner mode ≡ allowed i group owner mode
unfolding inode_check_permissions allowed asks is_access
inode_check_permissions-allowed i group owner mode h = ground arith

-- INODE_DONTCHECKPERMS lets everybody in.
pub inode_check_permissions-dont_check :
    (i : Inode) (group owner : ℕ) → inode_check_permissions i group owner dont_check ≡ true
unfolding inode_check_permissions
inode_check_permissions-dont_check i group owner = refl

-- Only the flags of the classes change.
pub inode_set_permissions_lem :
    (i : Inode) (perm umask : ℕ)
    → let j = inode_set_permissions i perm umask in
      j ≡ record i {
        user_read = j.user_read;
        user_write = j.user_write;
        user_execute = j.user_execute;
        group_read = j.group_read;
        group_write = j.group_write;
        group_execute = j.group_execute;
        world_read = j.world_read;
        world_write = j.world_write;
        world_execute = j.world_execute;
      }
unfolding inode_set_permissions
inode_set_permissions_lem i perm umask = refl
