-- ===== src/Fs/Descriptor.antt =====
-- The descriptors of fs/file.c: kclose, klseek, kdup and kdup2, for the process that runs. An inode in
-- use is a place of `file_tab`, and a descriptor is such a place or NULL. The array `file_desc` has
-- 1024 elements; the element 1024 is what lies behind it.
pub mod Duplicate
pub mod Seek
mod Tests
use ox.Base.{
  ℕ, zero, suc, ◌+◌, ◌-◌, ◌%◌, ◌^◌, Bool, true, false, not, ◌&&◌, ◌||◌, ◌==◌, Option, none, some,
  [], if◌then◌else◌, ltb, is_negative, update, minus_one,
}
use ox.Fs.Inode.{Inode, inode_null, inode_nopos, eacces}

abbrev pub max_files : ℕ
max_files = 1024

abbrev pub ebadf : ℕ
ebadf = 9

abbrev pub emfile : ℕ
emfile = 24

abbrev pub ssize_max : ℕ
ssize_max = 2147483647

-- What is used of the block layer over its state C: `block_sync` of a device, and `block_write` of an
-- inode to a block of a device.
pub record FileIo (C : Type 0) : Type 0 where
  pub sync : C → ℕ → Bool × C
  pub write : C → ℕ → ℕ → Inode → Bool × C

pub record Files (C : Type 0) : Type 0 where
  pub file_tab : ℕ → Inode
  pub file_desc : ℕ → Option ℕ
  pub errno : ℕ
  pub cache : C

abbrev pub zero_inode : Inode
zero_inode = record {
  user_read = 0;
  user_write = 0;
  user_execute = 0;
  group_read = 0;
  group_write = 0;
  group_execute = 0;
  world_read = 0;
  world_write = 0;
  world_execute = 0;
  is_directory = 0;
  is_device = 0;
  is_file = 0;
  is_symlink = 0;
  is_hardlink = 0;
  create_time = 0;
  modified_time = 0;
  accessed_time = 0;
  self = 0;
  parent = 0;
  size = 0;
  pos = 0;
  current = 0;
  current_parent = 0;
  iblock = 0;
  dev = 0;
  o_mode = 0;
  group = 0;
  owner = 0;
  refcount = 0;
  path = [];
  next = 0;
}

-- `fd < 0 || fd > MAX_FILES` of an `int`.
abbrev pub out_of_range : ℕ → Bool
out_of_range fd = is_negative fd || ltb max_files fd

-- Two descriptors or NULLs are equal.
abbrev pub same_file : Option ℕ → ℕ → Bool
same_file d f = elim d [ some g ↦ g == f | none ↦ false ]

abbrev pub is_null : Option ℕ → Bool
is_null d = elim d [ some g ↦ false | none ↦ true ]

-- Another descriptor than fd of the file, among n from i on.
pub find_other : ℕ → ℕ → (ℕ → Option ℕ) → ℕ → ℕ → Bool
find_other zero i desc f fd = false
find_other (suc n) i desc f fd =
    let rest = find_other n (suc i) desc f fd in
    if same_file (desc i) f && not (i == fd) then true else rest

-- The first descriptor that is NULL, among n from i on.
pub find_null : ℕ → ℕ → (ℕ → Option ℕ) → Option ℕ
find_null zero i desc = none
find_null (suc n) i desc =
    let rest = find_null n (suc i) desc in if is_null (desc i) then some i else rest

module _ {C : Type 0} where
  abbrev pub get_file : Files C → ℕ → Option ℕ
  get_file s fd = if out_of_range fd then none else s.file_desc fd

  pub kdup : Files C → ℕ → ℕ × Files C
  kdup s fd = elim (get_file s fd) [
    | none ↦ (minus_one, record s { errno = ebadf })
    | some f ↦ elim (find_null max_files 0 s.file_desc) [
      | some i ↦ (i, record s { file_desc = update s.file_desc i (some f) })
      | none ↦ (minus_one, record s { errno = emfile })
    ]
  ]

  module _ (io : FileIo C) (now : ℕ) where
    -- The last descriptor of a file is closed.
    pub close_last : Files C → ℕ → ℕ → ℕ × Files C
    close_last s fd f =
        let (synced, c) = io.sync s.cache (s.file_tab f).dev in
        let inode : Inode = record (s.file_tab f) {
          o_mode = 0;
          current = inode_null;
          current_parent = inode_null;
          iblock = 0;
          pos = 0;
          accessed_time = now;
        } in
        let t : Files C = record s { file_tab = update s.file_tab f inode; cache = c } in
        let (wrote, c') = io.write c inode.dev inode.self inode in
        if synced
        then (if wrote
            then (
              0,
              record s {
                file_tab = update s.file_tab f zero_inode;
                file_desc = update s.file_desc fd none;
                cache = c';
              },
            )
            else (minus_one, record t { cache = c'; errno = eacces }))
        else (minus_one, record s { cache = c; errno = eacces })

    pub kclose : Files C → ℕ → ℕ × Files C
    kclose s fd = elim (get_file s fd) [
      | none ↦ (minus_one, record s { errno = ebadf })
      | some f ↦
          if find_other max_files 0 s.file_desc f fd
          then (0, record s { file_desc = update s.file_desc fd none })
          else close_last s fd f
    ]

    pub kdup2 : Files C → ℕ → ℕ → ℕ × Files C
    kdup2 s fd newfd = elim (get_file s fd) [
      | none ↦ (minus_one, record s { errno = ebadf })
      | some f ↦
          let closed = if is_null (s.file_desc newfd) then s else (kclose s newfd).1 in
          if out_of_range newfd
          then (minus_one, record s { errno = ebadf })
          else if same_file (s.file_desc newfd) f
          then (newfd, s)
          else (newfd, record closed { file_desc = update closed.file_desc newfd (some f) })
    ]

    -- `pos` is of 64 bits and `off_t` an unsigned word of 32; SEEK_SET is 0, SEEK_CUR 1, SEEK_END 2.
    abbrev pub sought : Inode → ℕ → ℕ → Option ℕ
    sought inode offset whence =
        let ahead = (inode.pos + offset) % 2 ^ 64 in
        if whence == 0
        then some offset
        else if whence == 1
        then some (if ltb ssize_max ahead then ssize_max else ahead)
        else if whence == 2
        then some ((inode.size + offset) % 2 ^ 64)
        else none

    pub klseek : Files C → ℕ → ℕ → ℕ → ℕ × Files C
    klseek s fd offset whence = elim (get_file s fd) [
      | none ↦ (minus_one, s)
      | some f ↦ elim (sought (s.file_tab f) offset whence) [
        | none ↦ (minus_one, s)
        | some pos ↦
            let inode : Inode = record (s.file_tab f) { pos = pos; iblock = inode_nopos } in
            let (wrote, c) = io.write s.cache inode.dev inode.self inode in
            let t : Files C = record s { file_tab = update s.file_tab f inode; cache = c } in
            if wrote then (pos % 2 ^ 32, t) else (minus_one, record t { errno = eacces })
      ]
    ]
