-- ===== src/Fs/Lookup/Get.antt =====
-- inode_get of fs/inode.c at a path without links.
use ox.Base.{
  ℕ, ◌≤◌, ◌≡◌, ◌⊎◌, ◌∙◌, Bool, true, false, ◌==◌, none, some, List, [], ◌∷◌, if◌then◌else◌, ap,
  refl, length, arith, ltb,
}
use ox.Fs.Inode.{Inode, Mode, eacces}
use ox.Fs.Inode.Permission.{inode_check_permissions}
use ox.Fs.Path.{max_path, max_length, slash, words_of}
use ox.Fs.Path.Canonical.{joined, from_root, AreNames, split-joined, joined-Plain, krealpath-joined}
use ox.Fs.Path.Walk.{components-split}
use ox.Fs.Lookup.{Tree, failed, absent, reached, walk_path}
use ox.Fs.Lookup.Call.{kreadlink, inode_get_with, inode_get, load_root, rooted, is_root, root_at}
use ox.Fs.Lookup.Walk.{Leads, Breaks, walk_path-Leads, walk_path-Breaks, arrive_here}

module _ (now dev group owner depth n root : ℕ) (tree : Tree) (do_readlink : Bool)
    (mode : Mode) where
  -- The walk that inode_get does.
  pub inode_get-walk_path :
      (count current_dir : ℕ) (w : List ℕ) (ws : List (List ℕ)) (r : Inode)
      → AreNames (w ∷ ws)
      → length (joined (w ∷ ws)) ≤ max_length
      → tree.io.read_inode root ≡ some r
      → is_root r.path ≡ true
      → inode_get now dev group owner depth n
          (some root)
          tree
          count
          current_dir
          (joined (w ∷ ws))
          do_readlink
          mode
        ≡ walk_path
            (kreadlink now dev group owner depth n (some root) tree)
            tree
            group
            owner
            do_readlink
            mode
            n
            count
            r.self
            (w ∷ ws)
  unfolding inode_get inode_get_with
  inode_get-walk_path count current_dir w ws r names short read root_path =
      let (ptrs, buf, done, words) =
        components-split (joined (w ∷ ws)) (joined-Plain (w ∷ ws) names) (omega (arith, short)) in
      let fits : ltb max_path (length (joined (w ∷ ws))) ≡ false = ground arith in
      let inside : (length (joined (w ∷ ws)) == max_path) ≡ false = ground arith in
      let named : rooted (words_of buf ptrs) ≡ (slash ∷ []) ∷ w ∷ ws =
        ap rooted (words ∙ split-joined (w ∷ ws) names) ∙ unfold from_root rooted in refl in
      let loaded : load_root now dev tree root count ≡ root_at r tree =
        unfold load_root in rw (load_root, read, root_path) refl in
      rw
        (
          fits,
          inside,
          krealpath-joined tree.io.read_inode root n current_dir w ws names short,
          done,
          loaded,
          named,
        )
        refl

  module _ (count current_dir : ℕ) (w : List ℕ) (ws : List (List ℕ)) (r t : Inode) where
    -- inode_get of an absolute path of names of files, of at most 253 characters, in a tree that
    -- has its root, where the names lead, through directories that the caller may read and
    -- search, to an inode that is no link or whose link is not to be followed: if the inode's
    -- permissions allow the mode it gives INODE_OK, that inode and the errno EOK that krealpath
    -- sets, and if not, INODE_FAIL and EACCES.
    pub inode_get-Leads :
        AreNames (w ∷ ws)
        → length (joined (w ∷ ws)) ≤ max_length
        → tree.io.read_inode root ≡ some r
        → is_root r.path ≡ true
        → Leads tree.io group owner n r.self (w ∷ ws) t
        → (((t.is_symlink == 0) ≡ true) × ((t.is_hardlink == 0) ≡ true)) ⊎ (do_readlink ≡ false)
        → inode_get now dev group owner depth n
            (some root)
            tree
            count
            current_dir
            (joined (w ∷ ws))
            do_readlink
            mode
          ≡ some (
              if inode_check_permissions t group owner mode
              then reached tree count t
              else failed tree count eacces)
    inode_get-Leads names short read root_path leads own =
        inode_get-walk_path count current_dir w ws r names short read root_path
        ∙ walk_path-Leads (kreadlink now dev group owner depth n (some root) tree) tree group owner
            n do_readlink mode count leads
        ∙ arrive_here (kreadlink now dev group owner depth n (some root) tree) tree group owner n
            do_readlink mode count t own

  -- inode_get of an absolute path of names of files, of at most 253 characters, in a tree that
  -- has its root, where the names lead, through directories that the caller may read and search,
  -- to a directory that has block maps, whose inodes are all readable and have names other than
  -- the next of the path: it gives INODE_FILE_NOT_FOUND and ENOENT, and no inode.
  pub inode_get-Breaks :
      (count current_dir : ℕ) (w : List ℕ) (ws : List (List ℕ)) (r : Inode)
      → AreNames (w ∷ ws)
      → length (joined (w ∷ ws)) ≤ max_length
      → tree.io.read_inode root ≡ some r
      → is_root r.path ≡ true
      → Breaks tree.io group owner n r.self (w ∷ ws)
      → inode_get now dev group owner depth n
          (some root)
          tree
          count
          current_dir
          (joined (w ∷ ws))
          do_readlink
          mode
        ≡ some (absent tree count none)
  inode_get-Breaks count current_dir w ws r names short read root_path breaks =
      inode_get-walk_path count current_dir w ws r names short read root_path
      ∙ walk_path-Breaks (kreadlink now dev group owner depth n (some root) tree) tree group owner n
          do_readlink mode count breaks
