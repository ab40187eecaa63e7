-- ===== src/Fs/Lookup/Link.antt =====
-- kreadlink of fs/link.c: rows of links, and links that lead back.
use ox.Base.{
  ℕ, zero, suc, ◌+◌, ◌-◌, ◌≤◌, ◌<◌, ◌≡◌, ◌≢◌, inl, refl, ap, ◌∙◌, sym, true, false, not, ◌&&◌, ◌||◌,
  ◌==◌, Option, none, some, List, ◌∷◌, length, arith, ltb, if◌then◌else◌,
}
use mathlib.Core.Path.{subst}
use ox.Fs.Inode.{Inode, inode_null, dont_check}
use ox.Fs.Inode.Permission.Check.{inode_check_permissions-dont_check}
use ox.Fs.Path.{max_length, path_einval}
use ox.Fs.Path.Canonical.{joined, AreNames, krealpath-joined}
use ox.Fs.Lookup.{Tree, Lookup, ReadLink, arrive, eloop, max_recursion}
use ox.Fs.Lookup.Call.{is_inode_ok, kreadlink, inode_get, is_root}
use ox.Fs.Lookup.Walk.{Leads, walk_path-Leads, arrive_here}
use ox.Fs.Lookup.Get.{inode_get-walk_path}

abbrev IsLink : Inode → Type 0
IsLink t = ((t.is_symlink == 0) && (t.is_hardlink == 0)) ≡ false

abbrev NoLink : Inode → Type 0
NoLink t = ((t.is_symlink == 0) ≡ true) × ((t.is_hardlink == 0) ≡ true)

-- What kreadlink makes of the result of inode_get.
abbrev link_result : Option Lookup → Option (ℕ × ℕ × ℕ)
link_result none = none
link_result (some f) = elim f.inode [
  | none ↦ some (inode_null, path_einval, f.recursions)
  | some t ↦
      if is_inode_ok f.rtvl
      then some (t.self, 0, f.recursions - 1)
      else some (inode_null, path_einval, f.recursions)
]

module _ (now dev group owner n root : ℕ) (tree : Tree) where
  -- kreadlink on the device, with fuel for a number of links.
  abbrev pub read_link_of : ℕ → ReadLink
  read_link_of depth = kreadlink now dev group owner depth n (some root) tree

  -- A link in a block, to an absolute path in a tree that has a root.
  pub record LinksTo (block : ℕ) (w : List ℕ) (ws : List (List ℕ)) (r : Inode) : Type 0 where
    pub inode : Inode
    pub read : tree.io.read_inode block ≡ some inode
    pub link : IsLink inode
    pub path : tree.read_link inode.next ≡ some (joined (w ∷ ws))
    pub names : AreNames (w ∷ ws)
    pub short : length (joined (w ∷ ws)) ≤ max_length
    pub root_read : tree.io.read_inode root ≡ some r
    pub root_path : is_root r.path ≡ true

  kreadlink_call :
      (depth count block : ℕ) (w : List ℕ) (ws : List (List ℕ)) (r : Inode)
      → count < max_recursion
      → LinksTo block w ws r
      → read_link_of (suc depth) count block
        ≡ link_result (
            inode_get now dev group owner depth n
              (some root)
              tree
              (count + 1)
              block
              (joined (w ∷ ws))
              true
              dont_check)
  unfolding kreadlink inode_get
  kreadlink_call depth count block w ws r low l =
      let fits : ltb max_recursion (count + 1) ≡ false = ground arith in
      rw
        (
          fits,
          l.read,
          l.link,
          l.path,
          krealpath-joined tree.io.read_inode root n block w ws l.names l.short,
        )
        refl

  -- The end of a path in kreadlink: of a link behind the link, and of anything else.
  ends_lem :
      (depth count : ℕ) (t : Inode)
      → NoLink t
      → link_result (arrive (read_link_of depth) tree group owner true dont_check (count + 1) t)
        ≡ some (t.self, 0, count)
  ends_lem depth count t plain =
      let readlink = read_link_of depth in
      let same : count + 1 - 1 ≡ count = omega arith in
      rw
        (
          arrive_here readlink tree group owner n true dont_check (count + 1) t (inl plain),
          inode_check_permissions-dont_check t group owner,
        )
        (ap (λ k. some (t.self, 0, k)) same)

  passes_lem :
      (depth count : ℕ) (t u : Inode)
      → IsLink t
      → u.self ≢ inode_null
      → tree.io.read_inode u.self ≡ some u
      → read_link_of depth (count + 1) t.self ≡ some (u.self, 0, count + 1)
      → link_result (arrive (read_link_of depth) tree group owner true dont_check (count + 1) t)
        ≡ some (u.self, 0, count)
  unfolding arrive
  passes_lem depth count t u link real read done =
      let test : ((not (t.is_symlink == 0) || not (t.is_hardlink == 0)) && true) ≡ true =
        ground (arith, link) in
      let there : (u.self == inode_null) ≡ false = ground (arith, real) in
      let same : count + 1 - 1 ≡ count = omega arith in
      rw (test, done, there, read, inode_check_permissions-dont_check u group owner)
        (ap (λ k. some (u.self, 0, k)) same)

  fails_lem :
      (depth count c e : ℕ) (t : Inode)
      → IsLink t
      → read_link_of depth (count + 1) t.self ≡ some (inode_null, e, c)
      → link_result (arrive (read_link_of depth) tree group owner true dont_check (count + 1) t)
        ≡ some (inode_null, path_einval, c)
  unfolding arrive
  fails_lem depth count c e t link done =
      let test : ((not (t.is_symlink == 0) || not (t.is_hardlink == 0)) && true) ≡ true =
        ground (arith, link) in
      rw (test, done) refl

  -- A row of k links from a block on, and the inode behind the last.
  pub data Resolves : ℕ → ℕ → Inode → Type 0 where
    resolves_end :
        {block : ℕ} {t : Inode} (w : List ℕ) (ws : List (List ℕ)) (r : Inode)
        → LinksTo block w ws r
        → Leads tree.io group owner n r.self (w ∷ ws) t
        → NoLink t
        → Resolves 1 block t
    resolves_on :
        {k block : ℕ} {u : Inode} (w : List ℕ) (ws : List (List ℕ)) (r t : Inode)
        → LinksTo block w ws r
        → Leads tree.io group owner n r.self (w ∷ ws) t
        → IsLink t
        → u.self ≢ inode_null
        → tree.io.read_inode u.self ≡ some u
        → Resolves k t.self u
        → Resolves (suc k) block u

  -- kreadlink of a link whose path leads to an inode.
  kreadlink-arrive :
      (depth count block : ℕ) (w : List ℕ) (ws : List (List ℕ)) (r t : Inode)
      → count < max_recursion
      → LinksTo block w ws r
      → Leads tree.io group owner n r.self (w ∷ ws) t
      → read_link_of (suc depth) count block
        ≡ link_result (arrive (read_link_of depth) tree group owner true dont_check (count + 1) t)
  kreadlink-arrive depth count block w ws r t low l leads =
      kreadlink_call depth count block w ws r low l
      ∙ ap link_result (
          inode_get-walk_path now dev group owner depth n root tree true dont_check (count + 1)
            block w ws r l.names l.short l.root_read l.root_path
          ∙ walk_path-Leads (read_link_of depth) tree group owner n true dont_check (count + 1)
              leads)

  -- kreadlink of a row of k links, where each is a link to an absolute path of names of files of
  -- at most 253 characters that leads, in a tree that has its root and through directories that
  -- the caller may read and search, to a link whose own number is the block of the next link of
  -- the row, or at the end to an inode that is no link and, where k is two or more, is in the
  -- block that it has for its own number, which is not 0, where nr_recursion and k together are
  -- MAX_RECURSION at most, and with fuel for k links: it gives the number that the last inode has
  -- for itself, and nr_recursion is what it was.
  pub kreadlink-Resolves :
      (k depth count block : ℕ) (u : Inode)
      → Resolves k block u
      → k ≤ depth
      → count + k ≤ max_recursion
      → read_link_of depth count block ≡ some (u.self, 0, count)
  kreadlink-Resolves k zero count block u (resolves_end w ws r l leads plain) deep low =
      absurd (omega (arith, deep))
  kreadlink-Resolves k (suc depth) count block u (resolves_end w ws r l leads plain) deep low =
      kreadlink-arrive depth count block w ws r u (omega (arith, low)) l leads
      ∙ ends_lem depth count u plain
  kreadlink-Resolves k zero count block u (resolves_on w ws r t l leads link real read rest) deep
        low =
      absurd (omega (arith, deep))
  kreadlink-Resolves k (suc depth) count block u
        (resolves_on {k = j} w ws r t l leads link real read rest) deep low =
      kreadlink-arrive depth count block w ws r t (omega (arith, low)) l leads
      ∙ passes_lem depth count t u link real read (
          kreadlink-Resolves j depth (count + 1) t.self u rest (omega (arith, deep))
            (omega (arith, low)))

  kreadlink_full :
      (depth block : ℕ)
      → read_link_of (suc depth) max_recursion block ≡ some (inode_null, eloop, max_recursion)
  unfolding kreadlink
  kreadlink_full depth block = refl

  -- loop
  kreadlink_back :
      (m depth count block : ℕ) (w : List ℕ) (ws : List (List ℕ)) (r t : Inode)
      → LinksTo block w ws r
      → Leads tree.io group owner n r.self (w ∷ ws) t
      → IsLink t
      → t.self ≡ block
      → count + suc m ≡ max_recursion
      → suc m < depth
      → read_link_of depth count block ≡ some (inode_null, path_einval, max_recursion)
  kreadlink_back m zero count block w ws r t l leads link back low deep =
      absurd (omega (arith, deep))
  kreadlink_back zero (suc zero) count block w ws r t l leads link back low deep =
      absurd (omega (arith, deep))
  kreadlink_back zero (suc (suc depth)) count block w ws r t l leads link back low deep =
      kreadlink-arrive (suc depth) count block w ws r t (omega (arith, low)) l leads
      ∙ fails_lem (suc depth) count max_recursion eloop t link (
          let full : count + 1 ≡ max_recursion = omega (arith, low) in
          ap (λ c. read_link_of (suc depth) c t.self) full ∙ kreadlink_full depth t.self)
  kreadlink_back (suc m) (suc depth) count block w ws r t l leads link back low deep =
      kreadlink-arrive depth count block w ws r t (omega (arith, low)) l leads
      ∙ fails_lem depth count max_recursion path_einval t link (
          subst
            (λ b. read_link_of depth (count + 1) b ≡ some (inode_null, path_einval, max_recursion))
            (sym back)
            (kreadlink_back m depth (count + 1) block w ws r t l leads link back
              (omega (arith, low)) (omega (arith, deep))))

  -- kreadlink of a link whose absolute path, of names of files and of at most 253 characters,
  -- leads through directories that the caller may read and search to a link that has the number
  -- of the first one for itself, when nr_recursion is below MAX_RECURSION and the fuel is enough:
  -- it gives INODE_NULL and EINVAL and leaves nr_recursion at MAX_RECURSION, and from then on
  -- kreadlink of any block gives INODE_NULL and ELOOP and leaves it there.
  pub kreadlink_loop :
      (m depth count block other : ℕ) (w : List ℕ) (ws : List (List ℕ)) (r t : Inode)
      → LinksTo block w ws r
      → Leads tree.io group owner n r.self (w ∷ ws) t
      → IsLink t
      → t.self ≡ block
      → count + suc m ≡ max_recursion
      → suc m < depth
      → (read_link_of depth count block ≡ some (inode_null, path_einval, max_recursion))
        × (read_link_of depth max_recursion other ≡ some (inode_null, eloop, max_recursion))
  kreadlink_loop m zero count block other w ws r t l leads link back low deep =
      absurd (omega (arith, deep))
  kreadlink_loop m (suc depth) count block other w ws r t l leads link back low deep = (
    kreadlink_back m (suc depth) count block w ws r t l leads link back low deep,
    kreadlink_full depth other,
  )
