-- ===== src/Fs/Attribute.antt =====
-- The calls of fs/file.c on the attributes of an inode, for the process that runs. `now` is ktime and
-- `dev` master_get_dev, and the call is one on the device `dev`.
pub mod Keep
mod Change
mod Tests
use ox.Base.{
  ℕ, ◌+◌, ◌/◌, ◌%◌, ◌^◌, Bool, true, false, not, ◌==◌, Option, none, some, List, if◌then◌else◌,
  update, minus_one,
}
use ox.Fs.Inode.{Inode, dont_check, block_size, eacces}
use ox.Fs.Inode.Permission.{inode_get_permissions, inode_set_permissions}
use ox.Fs.Descriptor.{Files, FileIo, get_file, ebadf, emfile}
use ox.Fs.Path.{path_einval, RealPath, real, path_error, krealpath}
use ox.Fs.Lookup.{Tree, Lookup}
use ox.Fs.Lookup.Call.{is_inode_ok, put_root, inode_get}

-- `struct stat`.
pub record Stat : Type 0 where
  pub st_dev : ℕ
  pub st_ino : ℕ
  pub st_mode : ℕ
  pub st_nlink : ℕ
  pub st_uid : ℕ
  pub st_gid : ℕ
  pub st_rdev : ℕ
  pub st_size : ℕ
  pub st_blksize : ℕ
  pub st_blocks : ℕ
  pub st_atime : ℕ
  pub st_mtime : ℕ
  pub st_ctime : ℕ

abbrev pub stat_of : ℕ → Inode → Stat
stat_of dev inode = record {
  st_dev = dev;
  st_ino = inode.self;
  st_mode = inode_get_permissions inode;
  st_nlink = inode.refcount;
  st_uid = inode.owner;
  st_gid = inode.group;
  st_rdev = 0;
  st_size = inode.size % 2 ^ 32;
  st_blksize = block_size;
  st_blocks = (inode.size / block_size + (if inode.size % block_size == 0 then 0 else 1)) % 2 ^ 32;
  st_atime = inode.accessed_time;
  st_mtime = inode.modified_time;
  st_ctime = inode.create_time;
}

-- What a call on a path changes: the device, the static `nr_recursion` of kreadlink, errno and the
-- working directory of the process.
pub record System : Type 0 where
  pub tree : Tree
  pub recursions : ℕ
  pub errno : ℕ
  pub cwd : ℕ

-- `struct utimbuf`.
pub record Utimbuf : Type 0 where
  pub actime : ℕ
  pub modtime : ℕ

-- The state behind inode_get, and the inode if it is found.
abbrev pub past : System → Lookup → System
past s f = record s { tree = f.tree; recursions = f.recursions; errno = f.errno }

abbrev pub inode_of : Lookup → Option Inode
inode_of f = if is_inode_ok f.rtvl then f.inode else none

abbrev pub set_owner : ℕ → ℕ → Inode → Inode
set_owner owner group inode = record inode { owner = owner; group = group }

-- Fuel for links and for block maps; a block is writable where `writes` says so.
module _ (now dev group owner depth n : ℕ) (master : Option ℕ) (umask : ℕ) (writes : ℕ → Bool) where
  abbrev pub get_path : System → List ℕ → Bool → Option Lookup
  get_path s path do_readlink =
      inode_get now dev group owner depth n master s.tree s.recursions s.cwd path do_readlink
        dont_check

  -- kstat, and klstat with `do_readlink` false: the result and what is put into the buffer.
  pub stat_path : Bool → System → List ℕ → Bool → Option (ℕ × Option Stat × System)
  stat_path do_readlink s path has_buf =
      if not has_buf
      then some (minus_one, none, record s { errno = path_einval })
      else elim (get_path s path do_readlink) [
        | none ↦ none
        | some f ↦ elim (inode_of f) [
          | none ↦ some (minus_one, none, record (past s f) { errno = emfile })
          | some inode ↦ some (0, some (stat_of dev inode), past s f)
        ]
      ]

  pub kstat : System → List ℕ → Bool → Option (ℕ × Option Stat × System)
  kstat s path has_buf = stat_path true s path has_buf

  pub klstat : System → List ℕ → Bool → Option (ℕ × Option Stat × System)
  klstat s path has_buf = stat_path false s path has_buf

  -- block_write of a changed inode to its block.
  abbrev pub write_inode : System → Inode → ℕ × System
  write_inode s inode =
      if writes inode.self
      then (0, record s { tree = put_root s.tree inode.self inode })
      else (minus_one, record s { errno = eacces })

  -- A change of the inode of a path.
  pub change_path : Bool → (Inode → Inode) → System → List ℕ → Option (ℕ × System)
  change_path do_readlink change s path = elim (get_path s path do_readlink) [
    | none ↦ none
    | some f ↦ elim (inode_of f) [
      | none ↦ some (minus_one, record (past s f) { errno = emfile })
      | some inode ↦ some (write_inode (past s f) (record (change inode) { modified_time = now }))
    ]
  ]

  pub kchmod : System → List ℕ → ℕ → Option (ℕ × System)
  kchmod s path mode = change_path true (λ inode. inode_set_permissions inode mode umask) s path

  pub kchown : System → List ℕ → ℕ → ℕ → Option (ℕ × System)
  kchown s path new_owner new_group = change_path true (set_owner new_owner new_group) s path

  pub klchown : System → List ℕ → ℕ → ℕ → Option (ℕ × System)
  klchown s path new_owner new_group = change_path false (set_owner new_owner new_group) s path

  pub kutime : System → List ℕ → Option Utimbuf → Option (ℕ × System)
  kutime s path buf = elim buf [
    | none ↦ some (minus_one, record s { errno = path_einval })
    | some times ↦ elim (get_path s path true) [
      | none ↦ none
      | some f ↦ elim (inode_of f) [
        | none ↦ some (minus_one, past s f)
        | some inode ↦ some (
            write_inode (past s f)
              (record inode { accessed_time = times.actime; modified_time = times.modtime }))
      ]
    ]
  ]

  pub kchdir : System → List ℕ → Option (ℕ × System)
  kchdir s path = elim (get_path s path true) [
    | none ↦ none
    | some f ↦ elim (inode_of f) [
      | none ↦ some (minus_one, record (past s f) { errno = emfile })
      | some inode ↦
          if inode.is_directory == 0
          then some (minus_one, past s f)
          else some (0, record (past s f) { cwd = inode.self })
    ]
  ]

-- The calls on a descriptor.
module _ {C : Type 0} where
  pub kfstat : ℕ → Files C → ℕ → Bool → ℕ × Option Stat × Files C
  kfstat dev s fd has_buf = elim (get_file s fd) [
    | none ↦ (minus_one, none, record s { errno = ebadf })
    | some f ↦
        if has_buf
        then (0, some (stat_of dev (s.file_tab f)), s)
        else (minus_one, none, record s { errno = path_einval })
  ]

  module _ (io : FileIo C) (now umask : ℕ) where
    pub change_file : (Inode → Inode) → Files C → ℕ → ℕ × Files C
    change_file change s fd = elim (get_file s fd) [
      | none ↦ (minus_one, record s { errno = ebadf })
      | some f ↦
          let inode : Inode = record (change (s.file_tab f)) { modified_time = now } in
          let t : Files C = record s { file_tab = update s.file_tab f inode } in
          let (wrote, c) = io.write s.cache inode.dev inode.self inode in
          if wrote
          then (0, record t { cache = c })
          else (minus_one, record t { cache = c; errno = eacces })
    ]

    pub kfchmod : Files C → ℕ → ℕ → ℕ × Files C
    kfchmod s fd mode = change_file (λ inode. inode_set_permissions inode mode umask) s fd

    pub kfchown : Files C → ℕ → ℕ → ℕ → ℕ × Files C
    kfchown s fd new_owner new_group = change_file (set_owner new_owner new_group) s fd
