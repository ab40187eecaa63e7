-- ===== src/Fs/Directory.antt =====
-- kreaddir and krewinddir of fs/dir.c. The blocks of a directory's map are a list linked by `next`, each
-- with 127 numbers of inodes. What block_read gives does not change during a call.
pub mod Chain
pub mod Scan
mod Tests
use ox.Base.{
  ℕ, zero, suc, ◌+◌, ◌-◌, ◌/◌, ◌%◌, ◌^◌, Bool, true, false, not, ◌&&◌, ◌==◌, Option, none, some,
  List, [], ◌∷◌, ◌++◌, if◌then◌else◌, ltb, length,
}
use ox.Fs.Inode.{Inode, inode_null}

-- BMAP_BLOCKS.
abbrev pub bmap_blocks : ℕ
bmap_blocks = 127

-- `block_map_t`.
pub record BlockMap : Type 0 where
  pub next : ℕ
  pub blocks : ℕ → ℕ

-- `block_read` of a block map and of an inode, none on failure.
pub record DirIo : Type 0 where
  pub read_map : ℕ → Option BlockMap
  pub read_inode : ℕ → Option Inode

-- `struct dirent`, with the name as a string.
pub record Dirent : Type 0 where
  pub d_ino : ℕ
  pub d_off : ℕ
  pub d_reclen : ℕ
  pub d_type : ℕ
  pub d_name : List ℕ

-- What kreaddir uses of a DIR; `next` is `__data.next`.
pub record Dir : Type 0 where
  pub offset : ℕ
  pub block_ptr : ℕ
  pub block : ℕ
  pub next : ℕ
  pub path : List ℕ

abbrev pub krewinddir : Dir → Dir
krewinddir dir = record dir { offset = 0 }

-- The last kind that is set wins.
abbrev pub type_of : Inode → ℕ
type_of i =
    if not (i.is_hardlink == 0)
    then b'H'
    else if not (i.is_symlink == 0)
    then b'S'
    else if not (i.is_file == 0)
    then b'F'
    else if not (i.is_directory == 0)
    then b'D'
    else 0

-- "." and "..".
abbrev pub virtual_entry : Dir → Dirent
virtual_entry dir = record {
  d_ino = 0;
  d_off = 0;
  d_reclen = 0;
  d_type = 0;
  d_name = dir.path ++ ((b'/' ∷ []) ++ (if dir.offset == 0 then b'.' ∷ [] else b'.' ∷ b'.' ∷ []));
}

abbrev pub entry_of : Dir → ℕ → ℕ → Inode → Dirent
entry_of dir number index i = record {
  d_ino = number;
  d_off = index;
  d_reclen = i.size % 2 ^ 16;
  d_type = type_of i;
  d_name = dir.path ++ ((b'/' ∷ []) ++ i.path);
}

-- A round ends the call, or is followed by `goto RETRY`.
pub data Round : Type 0 where
  ended : Option Dirent → Dir → Round
  retry : Dir → Round

-- An entry whose name does not fit the array `d_name` of 256 characters is written behind its end: none.
abbrev pub fit_entry : Option (Option Dirent × Dir) → Option (Option Dirent × Dir)
fit_entry none = none
fit_entry (some (none, dir)) = some (none, dir)
fit_entry (some (some entry, dir)) =
    if ltb (length entry.d_name) 256 then some (some entry, dir) else none

module _ (io : DirIo) where
  -- The loop to the block map that is n steps on; the number of steps made, the block, and whether it
  -- got there.
  pub seek_map : ℕ → ℕ → ℕ → Bool × ℕ × ℕ
  seek_map zero made block = (true, made, block)
  seek_map (suc n) made block =
      if block == inode_null then (false, made, block) else elim (io.read_map block) [
        | some map ↦ seek_map n (suc made) map.next
        | none ↦ (false, made, block)
      ]

  -- The block map is at hand.
  pub read_entry : Dir → ℕ → Round
  read_entry dir index = elim (io.read_map dir.block) [
    | none ↦ ended none dir
    | some map ↦
        let number = map.blocks index in
        if number == inode_null
        then retry (record dir { offset = dir.offset + 1 })
        else elim (io.read_inode number) [
          | none ↦ ended none dir
          | some i ↦
              ended (some (entry_of dir number index i)) (record dir { offset = dir.offset + 1 })
        ]
  ]

  pub find_map : Dir → ℕ → Round
  find_map dir wanted =
      let (there, made, block) = seek_map wanted 0 dir.next in
      let moved = record dir { block_ptr = made; block = block } in
      if not there
      then ended none moved
      else if block == inode_null
      then ended none moved
      else retry moved

  pub readdir_round : Dir → Round
  readdir_round dir =
      let wanted = (dir.offset - 2) / bmap_blocks in
      let index = (dir.offset - 2) % bmap_blocks in
      if (dir.block_ptr == wanted) && not (dir.block == inode_null)
      then read_entry dir index
      else find_map dir wanted

  -- none is a loop that is cut off.
  pub readdir_loop : ℕ → Dir → Option (Option Dirent × Dir)
  readdir_loop zero dir = none
  readdir_loop (suc n) dir = elim (readdir_round dir) [
    | ended r d ↦ some (r, d)
    | retry d ↦ readdir_loop n d
  ]

  pub kreaddir : ℕ → Dir → Option (Option Dirent × Dir)
  kreaddir n dir =
      if ltb dir.offset 2
      then fit_entry (some (some (virtual_entry dir), record dir { offset = dir.offset + 1 }))
      else fit_entry (readdir_loop n dir)
