-- ===== src/Fs/Lookup/Scan.antt =====
-- The scan of a directory for a name in inode_get of fs/inode.c.
use ox.Base.{
  ℕ, zero, suc, ◌≤◌, ◌≡◌, ◌≢◌, refl, ap, ◌∙◌, inl, inr, true, false, ◌==◌, none, some, List, [],
  ◌∷◌, ◌++◌, if◌then◌else◌, length, arith, Bool-cases, ==_iff,
}
use ox.Fs.Inode.{Inode, inode_null}
use ox.Fs.Directory.{bmap_blocks, DirIo}
use ox.Fs.Directory.Chain.{Chain}
use ox.Fs.Lookup.{Search, missing, here, unreadable, same_name, scan_places, scan_chain}

-- The numbers of a block map from place j on, n places, and those of the maps of a directory; a free
-- place has none.
unfoldable pub taken : ℕ → ℕ → (ℕ → ℕ) → List ℕ
taken zero j m = []
taken (suc n) j m = let rest = taken n (suc j) m in if m j == inode_null then rest else m j ∷ rest

unfoldable pub listed : List (ℕ → ℕ) → List ℕ
listed [] = []
listed (m ∷ ms) = taken bmap_blocks 0 m ++ listed ms

module _ (io : DirIo) where
  -- A name in a list of inodes: the first inode with it, after some that are readable and have others.
  pub data Finds : List ℕ → List ℕ → ℕ → Inode → Type 0 where
    finds_here :
        {ds w : List ℕ} {d : ℕ} {t : Inode}
        → io.read_inode d ≡ some t
        → same_name t.path w ≡ true
        → Finds (d ∷ ds) w d t
    finds_later :
        {ds w : List ℕ} {d e : ℕ} {t : Inode} (u : Inode)
        → io.read_inode e ≡ some u
        → same_name u.path w ≡ false
        → Finds ds w d t
        → Finds (e ∷ ds) w d t

  -- All of the list are readable and have other names.
  pub data Lacks : List ℕ → List ℕ → Type 0 where
    lacks_all : {w : List ℕ} → Lacks [] w
    lacks_next :
        {ds w : List ℕ} {e : ℕ} (u : Inode)
        → io.read_inode e ≡ some u
        → same_name u.path w ≡ false
        → Lacks ds w
        → Lacks (e ∷ ds) w

  -- The scan as a search in a list.
  pub search_list : List ℕ → List ℕ → Search
  search_list [] w = missing
  search_list (d ∷ ds) w =
      let rest = search_list ds w in
      elim (io.read_inode d) [
        | none ↦ unreadable
        | some t ↦ if same_name t.path w then here d t else rest
      ]

  pub search_list-Finds :
      {ds w : List ℕ} {d : ℕ} {t : Inode} → Finds ds w d t → search_list ds w ≡ here d t
  unfolding search_list
  search_list-Finds (finds_here read name) = rw (search_list, read, name) refl
  search_list-Finds (finds_later u read name later) =
      rw (search_list, read, name) (search_list-Finds later)

  pub search_list-Lacks : {ds w : List ℕ} → Lacks ds w → search_list ds w ≡ missing
  unfolding search_list
  search_list-Lacks lacks_all = refl
  search_list-Lacks (lacks_next u read name later) =
      rw (search_list, read, name) (search_list-Lacks later)

  -- What is found first stays, and what is behind is looked at if nothing is.
  abbrev pub or_else : Search → Search → Search
  or_else missing other = other
  or_else s other = s

  pub search_list_append :
      (ds es w : List ℕ) → search_list (ds ++ es) w ≡ or_else (search_list ds w) (search_list es w)
  unfolding search_list
  search_list_append [] es w = refl
  search_list_append (d ∷ ds) es w = let later = search_list_append ds es w in ground (arith, later)

  pub scan_places-search_list :
      (n j : ℕ) (m : ℕ → ℕ) (w : List ℕ) → scan_places io n j m w ≡ search_list (taken n j m) w
  unfolding scan_places search_list taken
  scan_places-search_list zero j m w = refl
  scan_places-search_list (suc n) j m w =
      let rest = scan_places-search_list n (suc j) m w in ground (arith, rest)

  listed_end : (b : ℕ) (ms : List (ℕ → ℕ)) → Chain io b ms → b ≡ inode_null → listed ms ≡ []
  unfolding listed
  listed_end b [] chain e = refl
  listed_end b (m ∷ ms) (map, nz, rest, same, more) e = absurd (nz e)

  -- The scan of a directory whose block maps are a list that ends, n at most: it is a search in the
  -- list of the numbers in them that are not INODE_NULL, in their order, and gives the first inode
  -- with the name unless one before it is unreadable.
  pub scan_chain-search_list :
      (n b : ℕ) (ms : List (ℕ → ℕ)) (w : List ℕ)
      → Chain io b ms
      → b ≢ inode_null
      → length ms ≤ n
      → scan_chain io n b w ≡ some (search_list (listed ms) w)
  unfolding scan_chain listed search_list
  scan_chain-search_list n b [] w chain real fits = absurd (real chain)
  scan_chain-search_list zero b (m ∷ ms) w chain real fits = absurd (omega (arith, fits))
  scan_chain-search_list (suc n) b (m ∷ ms) w (map, nz, read, same, rest) real fits =
      let behind : (map.next ≢ inode_null)
          → scan_chain io n map.next w ≡ some (search_list (listed ms) w) =
        λ ne. scan_chain-search_list n map.next ms w rest ne (omega (arith, fits)) in
      let places : scan_places io bmap_blocks 0 map.blocks w
          ≡ search_list (taken bmap_blocks 0 m) w =
        scan_places-search_list bmap_blocks 0 map.blocks w
        ∙ ap (λ f. search_list (taken bmap_blocks 0 f) w) same in
      elim (Bool-cases (map.next == inode_null)) [
        | inl e ↦
            let none_left : search_list (listed ms) w ≡ missing =
              ap (λ l. search_list l w)
                (listed_end map.next ms rest ((==_iff map.next inode_null).0 e)) in
            ground (
              arith,
              read,
              places,
              e,
              none_left,
              search_list_append (taken bmap_blocks 0 m) (listed ms) w,
            )
        | inr e ↦ ground (
          arith,
          read,
          places,
          e,
          behind (ground (arith, e)),
          search_list_append (taken bmap_blocks 0 m) (listed ms) w,
        )
      ]
