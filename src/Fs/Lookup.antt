-- ===== src/Fs/Lookup.antt =====
-- The walk of inode_get of fs/inode.c over the components of a path. What block_read gives does not
-- change during a call, but for the root when the call makes it. The errno of a failure is part of its
-- result.
pub mod Call
pub mod Scan
pub mod Walk
pub mod Get
mod Link
pub mod Tests
use ox.Base.{
  ℕ, zero, suc, ◌+◌, ◌-◌, Bool, true, false, not, ◌&&◌, ◌||◌, ◌==◌, Option, none, some, List, [],
  ◌∷◌, if◌then◌else◌, ltb, length,
}
use ox.Libk.Strings.{strcmp}
use ox.Fs.Inode.{
  Inode, Mode, dont_check, rx, InodeRtvl, inode_ok, inode_fail, file_not_found, inode_null, eacces,
}
use ox.Fs.Inode.Permission.{inode_check_permissions, inode_set_permissions}
use ox.Fs.Descriptor.{zero_inode}
use ox.Fs.Directory.{BlockMap, DirIo, bmap_blocks}
use ox.Fs.Path.{
  max_path, slash, enametoolong, path_einval, RealPath, real, path_error, krealpath, components,
  words_of, buffer_of,
}

abbrev pub eok : ℕ
eok = 0

abbrev pub enoent : ℕ
enoent = 2

abbrev pub eloop : ℕ
eloop = 40

abbrev pub max_recursion : ℕ
max_recursion = 1024

-- What a device has, none where a transfer fails: `io` for inodes and block maps, the path in a block of
-- a link, whether the root can be written, and what inode_get_inode_block gives. The same block can be
-- read in each of these ways: `as_map` and `as_link` are what a block with an inode in it is as a block
-- map and as a link, which depends on the compiler.
pub record Tree : Type 0 where
  pub io : DirIo
  pub read_link : ℕ → Option (List ℕ)
  pub root_writes : Bool
  pub inode_block : Option ℕ
  pub as_map : Inode → BlockMap
  pub as_link : Inode → List ℕ

-- The result, errno, which krealpath sets to EOK when it succeeds, `*res_inode` if it is set, the
-- static `nr_recursion` of kreadlink, and the device.
pub record Lookup : Type 0 where
  pub rtvl : InodeRtvl
  pub errno : ℕ
  pub inode : Option Inode
  pub recursions : ℕ
  pub tree : Tree

abbrev pub failed : Tree → ℕ → ℕ → Lookup
failed tree count errno = record {
  rtvl = inode_fail;
  errno = errno;
  inode = none;
  recursions = count;
  tree = tree;
}

abbrev pub absent : Tree → ℕ → Option Inode → Lookup
absent tree count inode = record {
  rtvl = file_not_found;
  errno = enoent;
  inode = inode;
  recursions = count;
  tree = tree;
}

abbrev pub reached : Tree → ℕ → Inode → Lookup
reached tree count inode = record {
  rtvl = inode_ok;
  errno = eok;
  inode = some inode;
  recursions = count;
  tree = tree;
}

-- A name in a directory: not there, the number of its inode and the inode, or a transfer that fails.
pub data Search : Type 0 where
  missing : Search
  here : ℕ → Inode → Search
  unreadable : Search

abbrev pub same_name : List ℕ → List ℕ → Bool
same_name a b = strcmp a b == 0

module _ (io : DirIo) where
  -- n places of a block map from j on.
  pub scan_places : ℕ → ℕ → (ℕ → ℕ) → List ℕ → Search
  scan_places zero j blocks name = missing
  scan_places (suc n) j blocks name =
      let rest = scan_places n (suc j) blocks name in
      if blocks j == inode_null then rest else elim (io.read_inode (blocks j)) [
        | none ↦ unreadable
        | some tnode ↦ if same_name tnode.path name then here (blocks j) tnode else rest
      ]

  -- The block maps from a block on; none is a loop that is cut off.
  pub scan_chain : ℕ → ℕ → List ℕ → Option Search
  scan_chain zero block name = none
  scan_chain (suc n) block name = elim (io.read_map block) [
    | none ↦ some unreadable
    | some map ↦
        let rest = scan_chain n map.next name in
        elim (scan_places bmap_blocks 0 map.blocks name) [
          | missing ↦ if map.next == inode_null then some missing else rest
          | here number tnode ↦ some (here number tnode)
          | unreadable ↦ some unreadable
        ]
  ]

-- The parent on the way: its inode, or the end of the call.
pub data Entered : Type 0 where
  enter : Inode → ℕ → Entered
  stop : Lookup → Entered

abbrev pub is_last : List (List ℕ) → Bool
is_last [] = true
is_last (w ∷ ws) = false

-- `kreadlink`: the number, the errno and `nr_recursion`; none is a loop that is cut off.
abbrev pub ReadLink : Type 0
ReadLink = ℕ → ℕ → Option (ℕ × ℕ × ℕ)

module _ (readlink : ReadLink) (tree : Tree) (group owner : ℕ) where
  pub enter_dir : Bool → ℕ → Inode → Option Entered
  enter_dir last count inode =
      if not (inode.is_symlink == 0)
      then elim (readlink count inode.self) [
        | none ↦ none
        | some (block, errno, count') ↦
            if block == inode_null
            then some (stop (failed tree count' errno))
            else elim (tree.io.read_inode block) [
              | none ↦ some (stop (failed tree count' eacces))
              | some target ↦
                  if target.is_directory == 0
                  then some (stop (failed tree count' eacces))
                  else some (enter target count')
            ]
      ]
      else if not (inode.is_directory == 0)
      then some (enter inode count)
      else if last
      then some (stop (failed tree count eok))
      else some (stop (failed tree count (if inode.is_file == 0 then path_einval else enoent)))

  module _ (do_readlink : Bool) (mode : Mode) where
    abbrev pub checked : ℕ → Inode → Lookup
    checked count tnode =
        if inode_check_permissions tnode group owner mode
        then reached tree count tnode
        else failed tree count eacces

    -- The end of the path.
    pub arrive : ℕ → Inode → Option Lookup
    arrive count tnode =
        if (not (tnode.is_symlink == 0) || not (tnode.is_hardlink == 0)) && do_readlink
        then elim (readlink count tnode.self) [
          | none ↦ none
          | some (block, errno, count') ↦
              if block == inode_null
              then some (failed tree count' enoent)
              else elim (tree.io.read_inode block) [
                | none ↦ some (failed tree count' eacces)
                | some target ↦ some (checked count' target)
              ]
        ]
        else some (checked count tnode)

    -- The loop over the components; none is a loop that is cut off.
    pub walk_path : ℕ → ℕ → ℕ → List (List ℕ) → Option Lookup
    walk_path n count parent [] = some (failed tree count eok)
    walk_path n count parent (w ∷ ws) = elim (tree.io.read_inode parent) [
      | none ↦ some (failed tree count eacces)
      | some inode ↦ elim (enter_dir (is_last ws) count inode) [
        | none ↦ none
        | some (stop f) ↦ some f
        | some (enter dir count') ↦
            if not (inode_check_permissions dir group owner rx)
            then some (failed tree count' eacces)
            else if dir.next == inode_null
            then some (absent tree count' (some zero_inode))
            else elim (scan_chain tree.io n dir.next w) [
              | none ↦ none
              | some missing ↦ some (absent tree count' none)
              | some unreadable ↦ some (failed tree count' eacces)
              | some (here number tnode) ↦
                  if is_last ws then arrive count' tnode else walk_path n count' number ws
            ]
      ]
    ]
