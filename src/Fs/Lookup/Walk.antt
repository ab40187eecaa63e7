-- ===== src/Fs/Lookup/Walk.antt =====
-- The walk of inode_get of fs/inode.c through directories.
use ox.Base.{
  ℕ, ◌≤◌, ◌≡◌, ◌≢◌, ◌⊎◌, inl, inr, refl, ap, ◌∙◌, Bool, true, false, ◌==◌, none, some, List, [],
  ◌∷◌, if◌then◌else◌, length, arith,
}
use ox.Fs.Inode.{Inode, Mode, rx, inode_null}
use ox.Fs.Inode.Permission.{inode_check_permissions}
use ox.Fs.Directory.{DirIo}
use ox.Fs.Directory.Chain.{Chain}
use ox.Fs.Lookup.{
  Tree, absent, enter, ReadLink, missing, here, scan_chain, enter_dir, is_last, checked, arrive,
  walk_path,
}
use ox.Fs.Lookup.Scan.{
  listed, Finds, Lacks, search_list-Finds, search_list-Lacks, scan_chain-search_list,
}

-- A directory in a block that the caller may read and search, with the block maps `ms`, n at most.
pub record Opens (io : DirIo) (group owner n b : ℕ) (ms : List (ℕ → ℕ)) : Type 0 where
  pub inode : Inode
  pub read : io.read_inode b ≡ some inode
  pub directory : (inode.is_directory == 0) ≡ false
  pub no_link : (inode.is_symlink == 0) ≡ true
  pub allowed : inode_check_permissions inode group owner rx ≡ true
  pub real : inode.next ≢ inode_null
  pub maps : Chain io inode.next ms
  pub fits : length ms ≤ n

module _ (io : DirIo) (group owner n : ℕ) where
  -- The path from a directory, word by word, to an inode.
  pub data Leads : ℕ → List (List ℕ) → Inode → Type 0 where
    leads_here :
        {b d : ℕ} {w : List ℕ} {t : Inode} (ms : List (ℕ → ℕ))
        → Opens io group owner n b ms
        → Finds io (listed ms) w d t
        → Leads b (w ∷ []) t
    leads_on :
        {b d : ℕ} {w v : List ℕ} {ws : List (List ℕ)} {t : Inode} (ms : List (ℕ → ℕ)) (u : Inode)
        → Opens io group owner n b ms
        → Finds io (listed ms) w d u
        → Leads d (v ∷ ws) t
        → Leads b (w ∷ v ∷ ws) t

  -- A path whose words are there up to a directory that lacks the next one.
  pub data Breaks : ℕ → List (List ℕ) → Type 0 where
    breaks_here :
        {b : ℕ} {w : List ℕ} {ws : List (List ℕ)} (ms : List (ℕ → ℕ))
        → Opens io group owner n b ms
        → Lacks io (listed ms) w
        → Breaks b (w ∷ ws)
    breaks_on :
        {b d : ℕ} {w v : List ℕ} {ws : List (List ℕ)} (ms : List (ℕ → ℕ)) (u : Inode)
        → Opens io group owner n b ms
        → Finds io (listed ms) w d u
        → Breaks d (v ∷ ws)
        → Breaks b (w ∷ v ∷ ws)

module _ (readlink : ReadLink) (tree : Tree) (group owner n : ℕ) (do_readlink : Bool)
    (mode : Mode) where
  opened :
      {b : ℕ} {ms : List (ℕ → ℕ)} (last : Bool) (count : ℕ) (o : Opens tree.io group owner n b ms)
      → enter_dir readlink tree group owner last count o.inode ≡ some (enter o.inode count)
  unfolding enter_dir
  opened last count o = ground (arith, o.no_link, o.directory)

  -- A round in a directory that has the name.
  walk_found :
      (count b d : ℕ) (w : List ℕ) (ws : List (List ℕ)) (ms : List (ℕ → ℕ)) (t : Inode)
      → Opens tree.io group owner n b ms
      → Finds tree.io (listed ms) w d t
      → walk_path readlink tree group owner do_readlink mode n count b (w ∷ ws) ≡ (
          if is_last ws
          then arrive readlink tree group owner do_readlink mode count t
          else walk_path readlink tree group owner do_readlink mode n count d ws)
  unfolding walk_path
  walk_found count b d w ws ms t o finds =
      let scan : scan_chain tree.io n o.inode.next w ≡ some (here d t) =
        scan_chain-search_list tree.io n o.inode.next ms w o.maps o.real o.fits
        ∙ ap some (search_list-Finds tree.io finds) in
      let real : (o.inode.next == inode_null) ≡ false = ground (arith, o.real) in
      rw (walk_path, o.read, opened (is_last ws) count o, o.allowed, real, scan) refl

  walk-Lacks :
      (count b : ℕ) (w : List ℕ) (ws : List (List ℕ)) (ms : List (ℕ → ℕ))
      → Opens tree.io group owner n b ms
      → Lacks tree.io (listed ms) w
      → walk_path readlink tree group owner do_readlink mode n count b (w ∷ ws)
        ≡ some (absent tree count none)
  unfolding walk_path
  walk-Lacks count b w ws ms o lacks =
      let scan : scan_chain tree.io n o.inode.next w ≡ some missing =
        scan_chain-search_list tree.io n o.inode.next ms w o.maps o.real o.fits
        ∙ ap some (search_list-Lacks tree.io lacks) in
      let real : (o.inode.next == inode_null) ≡ false = ground (arith, o.real) in
      rw (walk_path, o.read, opened (is_last ws) count o, o.allowed, real, scan) refl

  pub walk_path-Leads :
      (count : ℕ) {b : ℕ} {ws : List (List ℕ)} {t : Inode}
      → Leads tree.io group owner n b ws t
      → walk_path readlink tree group owner do_readlink mode n count b ws
        ≡ arrive readlink tree group owner do_readlink mode count t
  walk_path-Leads count (leads_here {b} {d} {w} {t} ms o finds) =
      walk_found count b d w [] ms t o finds
  walk_path-Leads count (leads_on {b} {d} {w} {v} {ws} {t} ms u o finds rest) =
      walk_found count b d w (v ∷ ws) ms u o finds ∙ walk_path-Leads count rest

  pub walk_path-Breaks :
      (count : ℕ) {b : ℕ} {ws : List (List ℕ)}
      → Breaks tree.io group owner n b ws
      → walk_path readlink tree group owner do_readlink mode n count b ws
        ≡ some (absent tree count none)
  walk_path-Breaks count (breaks_here {b} {w} {ws} ms o lacks) = walk-Lacks count b w ws ms o lacks
  walk_path-Breaks count (breaks_on {b} {d} {w} {v} {ws} ms u o finds rest) =
      walk_found count b d w (v ∷ ws) ms u o finds ∙ walk_path-Breaks count rest

  -- The end of a path that is not a link, or whose link is wanted itself.
  pub arrive_here :
      (count : ℕ) (t : Inode)
      → (((t.is_symlink == 0) ≡ true) × ((t.is_hardlink == 0) ≡ true)) ⊎ (do_readlink ≡ false)
      → arrive readlink tree group owner do_readlink mode count t
        ≡ some (checked readlink tree group owner do_readlink mode count t)
  unfolding arrive
  arrive_here count t (inl (soft, hard)) = rw (soft, hard) refl
  arrive_here count t (inr own) = ground (arith, own)
