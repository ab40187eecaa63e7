-- ===== src/Fs/Lookup/Call.antt =====
-- inode_get of fs/inode.c and kreadlink of fs/link.c as they call each other.
use ox.Base.{
  ℕ, zero, suc, ◌+◌, ◌-◌, Bool, true, false, not, ◌&&◌, ◌==◌, Option, none, some, List, [], ◌∷◌,
  if◌then◌else◌, ltb, length,
}
use ox.Fs.Inode.{Inode, Mode, dont_check, InodeRtvl, inode_ok, inode_null, eacces}
use ox.Fs.Inode.Permission.{inode_set_permissions}
use ox.Fs.Path.{
  max_path, slash, enametoolong, path_einval, real, path_error, krealpath, components, words_of,
  buffer_of,
}
use ox.Fs.Lookup.{
  eok, eloop, max_recursion, Tree, Lookup, failed, reached, same_name, ReadLink, walk_path,
}

abbrev pub is_inode_ok : InodeRtvl → Bool
is_inode_ok inode_ok = true
is_inode_ok r = false

-- The components of the resolved path; an empty first one is "/".
unfoldable pub rooted : List (List ℕ) → List (List ℕ)
rooted ([] ∷ ws) = (slash ∷ []) ∷ ws
rooted ws = ws

abbrev pub is_root : List ℕ → Bool
is_root path = same_name path (slash ∷ [])

abbrev pub only_root : List (List ℕ) → Bool
only_root (w ∷ []) = is_root w
only_root ws = false

abbrev pub tail : List (List ℕ) → List (List ℕ)
tail [] = []
tail (w ∷ ws) = ws

-- The root as inode_get makes it at the time `now`, from what its block has.
abbrev pub new_root : ℕ → ℕ → ℕ → Inode → Inode
new_root now dev root old =
    record (inode_set_permissions (record old { path = slash ∷ []; next = inode_null }) 511 0) {
      create_time = now;
      modified_time = now;
      accessed_time = now;
      is_directory = 1;
      dev = dev;
      self = root;
      parent = root;
      group = 0;
      owner = 0;
    }

-- `block_write` of an inode, which is then what each kind of read of the block gives.
abbrev pub put_inode_at : {X : Type 0} → ℕ → X → (ℕ → Option X) → ℕ → Option X
put_inode_at block x read b = if b == block then some x else read b

abbrev pub put_root : Tree → ℕ → Inode → Tree
put_root tree block inode = record tree {
  io = record {
    read_map = put_inode_at block (tree.as_map inode) tree.io.read_map;
    read_inode = put_inode_at block inode tree.io.read_inode;
  };
  read_link = put_inode_at block (tree.as_link inode) tree.read_link;
}

-- The root, which is made if it has another path, or the end of the call.
pub data Root : Type 0 where
  root_at : Inode → Tree → Root
  no_root : Lookup → Root

module _ (now dev : ℕ) where
  unfoldable pub load_root : Tree → ℕ → ℕ → Root
  load_root tree root count = elim (tree.io.read_inode root) [
    | none ↦ no_root (failed tree count eacces)
    | some inode ↦ if is_root inode.path then root_at inode tree else elim tree.inode_block [
      | none ↦ no_root (failed tree count eacces)
      | some block ↦
          if not (block == root)
          then no_root (failed tree count eok)
          else if not tree.root_writes
          then no_root (failed tree count eacces)
          else root_at (new_root now dev root inode)
              (put_root tree root (new_root now dev root inode))
    ]
  ]

  module _ (group owner : ℕ) where
    -- inode_get below a kreadlink; `master` is the root of the device, or none for NULL. A path of
    -- 256 characters is copied behind the end of `in_path`: none, as for krealpath.
    unfoldable pub inode_get_with :
        ReadLink → ℕ → Option ℕ → Tree → ℕ → ℕ → List ℕ → Bool → Mode → Option Lookup
    inode_get_with readlink n none tree count current_dir path do_readlink mode =
        some (failed tree count path_einval)
    inode_get_with readlink n (some root) tree count current_dir path do_readlink mode =
        if ltb max_path (length path)
        then some (failed tree count enametoolong)
        else if length path == max_path
        then none
        else elim (krealpath tree.io.read_inode root n current_dir path) [
          | none ↦ none
          | some (path_error e) ↦ some (failed tree count e)
          | some (real absolute) ↦ elim (components (max_path + 3) (buffer_of absolute) 0) [
            | none ↦ none
            | some (ptrs, buf) ↦
                let names = rooted (words_of buf ptrs) in
                elim (load_root tree root count) [
                  | no_root f ↦ some f
                  | root_at inode tree' ↦
                      if only_root names
                      then some (reached tree' count inode)
                      else walk_path readlink tree' group owner do_readlink mode n count inode.self
                          (tail names)
                ]
          ]
        ]

    -- kreadlink of the link in a block, n links deep at most; none is a call that is cut off.
    unfoldable pub kreadlink : ℕ → ℕ → Option ℕ → Tree → ReadLink
    kreadlink zero n master tree count block = none
    kreadlink (suc depth) n master tree count block =
        if ltb max_recursion (count + 1)
        then some (inode_null, eloop, count)
        else elim (tree.io.read_inode block) [
          | none ↦ some (inode_null, eacces, count + 1)
          | some inode ↦
              if (inode.is_symlink == 0) && (inode.is_hardlink == 0)
              then some (inode_null, path_einval, count + 1)
              else elim (tree.read_link inode.next) [
                | none ↦ some (inode_null, eacces, count + 1)
                | some path ↦ elim master [
                  | none ↦ some (inode_null, path_einval, count + 1)
                  | some root ↦ elim (krealpath tree.io.read_inode root n block path) [
                    | none ↦ none
                    | some (path_error e) ↦ some (inode_null, e, count + 1)
                    | some (real absolute) ↦
                        elim (inode_get_with (kreadlink depth n (some root) tree) n (some root) tree
                          (count + 1) block path true dont_check) [
                            | none ↦ none
                            | some f ↦ elim f.inode [
                              | none ↦ some (inode_null, path_einval, f.recursions)
                              | some target ↦
                                  if is_inode_ok f.rtvl
                                  then some (target.self, eok, f.recursions - 1)
                                  else some (inode_null, path_einval, f.recursions)
                            ]
                          ]
                  ]
                ]
              ]
        ]

    unfoldable pub inode_get :
        ℕ → ℕ → Option ℕ → Tree → ℕ → ℕ → List ℕ → Bool → Mode → Option Lookup
    inode_get depth n master tree count current_dir path do_readlink mode =
        inode_get_with (kreadlink depth n master tree) n master tree count current_dir path
          do_readlink mode
