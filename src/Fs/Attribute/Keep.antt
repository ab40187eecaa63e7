-- ===== src/Fs/Attribute/Keep.antt =====
-- A path that inode_get of fs/inode.c follows, when the inode of a file at its end changes.
use ox.Base.{
  ℕ, ◌≡◌, ◌≢◌, refl, sym, ap, ◌∙◌, inl, inr, true, false, ◌==◌, some, List, [], ◌∷◌, arith,
  Bool-cases, ==_iff,
}
use mathlib.Core.Path.{subst}
use ox.Fs.Inode.{Inode}
use ox.Fs.Directory.Chain.{Chain}
use ox.Fs.Directory.{DirIo}
use ox.Fs.Lookup.{Tree, same_name}
use ox.Fs.Lookup.Call.{put_root}
use ox.Fs.Lookup.Scan.{Finds, finds_here, finds_later}
use ox.Fs.Lookup.Walk.{Opens, Leads, leads_here, leads_on}

-- A block is none of the block maps of a directory.
abbrev pub IsClear : (io : DirIo) (k b : ℕ) (ms : List (ℕ → ℕ)) → Chain io b ms → Type 0
IsClear io k b [] chain = Unit {0}
IsClear io k b (m ∷ ms) (map, real, read, same, rest) = (b ≢ k) × IsClear io k map.next ms rest

-- A path ends in a block, which is none of the block maps of the directories on the way.
abbrev pub EndsIn :
    {io : DirIo} {group owner n b : ℕ} {ws : List (List ℕ)} {t : Inode}
    → Leads io group owner n b ws t
    → ℕ
    → Type 0
EndsIn {io = io} (leads_here {d = d} ms o finds) k = (d ≡ k) × IsClear io k o.inode.next ms o.maps
EndsIn {io = io} (leads_on ms u o finds rest) k =
    IsClear io k o.inode.next ms o.maps × EndsIn rest k

Finds-read_inode :
    (io : DirIo) {ds w : List ℕ} {d : ℕ} {u : Inode} → Finds io ds w d u → io.read_inode d ≡ some u
Finds-read_inode io (finds_here read name) = read
Finds-read_inode io (finds_later u read name later) = Finds-read_inode io later

module _ (tree : Tree) (t new : Inode) where
  abbrev pub changed : DirIo
  changed = (put_root tree t.self new).io

  -- A file whose name does not change.
  pub record IsRenewed : Type 0 where
    pub read : tree.io.read_inode t.self ≡ some t
    pub path : new.path ≡ t.path
    pub plain : (t.is_directory == 0) ≡ true

  Chain_kept :
      (b : ℕ) (ms : List (ℕ → ℕ)) (chain : Chain tree.io b ms)
      → IsClear tree.io t.self b ms chain
      → Chain changed b ms
  Chain_kept b [] chain clear = chain
  Chain_kept b (m ∷ ms) (map, real, read, same, rest) clear =
      let other : (b == t.self) ≡ false = ground (arith, clear.0) in
      (map, real, rw other read, same, Chain_kept map.next ms rest clear.1)

  module _ (r : IsRenewed) where
    is_file : (e : ℕ) (u : Inode) → tree.io.read_inode e ≡ some u → (e == t.self) ≡ true → u ≡ t
    is_file e u read s =
        let at : e ≡ t.self = (==_iff e t.self).0 s in
        let back = subst (λ k. tree.io.read_inode k ≡ some u) at read in let known = r.read in cc

    read_kept :
        (e : ℕ) (u : Inode)
        → tree.io.read_inode e ≡ some u
        → (v : Inode) × (changed.read_inode e ≡ some v) × (v.path ≡ u.path)
    read_kept e u read = elim (Bool-cases (e == t.self)) [
      | inl s ↦ (new, rw s refl, r.path ∙ ap (λ i. i.path) (sym (is_file e u read s)))
      | inr s ↦ (u, rw s read, refl)
    ]

    Finds-kept :
        {ds w : List ℕ} {d : ℕ} {u : Inode} (v : Inode)
        → changed.read_inode d ≡ some v
        → Finds tree.io ds w d u
        → Finds changed ds w d v
    Finds-kept v read' (finds_here {w = w} {d = d} {t = u} read name) =
        let (u', again, path) = read_kept d u read in
        let same : v ≡ u' = cc in
        finds_here read' (ap (λ p. same_name p w) (ap (λ i. i.path) same ∙ path) ∙ name)
    Finds-kept v read' (finds_later {w = w} {e = e} u read name later) =
        let (u', again, path) = read_kept e u read in
        finds_later u' again (ap (λ p. same_name p w) path ∙ name) (Finds-kept v read' later)

    other_block :
        {group owner n : ℕ} (b : ℕ) (ms : List (ℕ → ℕ))
        → Opens tree.io group owner n b ms
        → (b == t.self) ≡ false
    other_block b ms o = elim (Bool-cases (b == t.self)) [
      | inl s ↦
          let file : o.inode ≡ t = is_file b o.inode o.read s in
          absurd (ground (arith, o.directory, r.plain, ap (λ i. i.is_directory) file))
      | inr s ↦ s
    ]

    Opens-kept :
        {group owner n b : ℕ} {ms : List (ℕ → ℕ)} (o : Opens tree.io group owner n b ms)
        → IsClear tree.io t.self o.inode.next ms o.maps
        → Opens changed group owner n b ms
    Opens-kept {b = b} {ms = ms} o clear =
        let other = other_block b ms o in
        record {
          inode = o.inode;
          read = rw other o.read;
          directory = o.directory;
          no_link = o.no_link;
          allowed = o.allowed;
          real = o.real;
          maps = Chain_kept o.inode.next ms o.maps clear;
          fits = o.fits;
        }

    -- The same path then leads to the new inode.
    pub Leads-kept :
        {group owner n b : ℕ} {ws : List (List ℕ)} (leads : Leads tree.io group owner n b ws t)
        → EndsIn leads t.self
        → Leads changed group owner n b ws new
    Leads-kept (leads_here {d = d} ms o finds) ends =
        let same : (d == t.self) ≡ true = ground (arith, ends.0) in
        leads_here ms (Opens-kept o ends.1) (Finds-kept new (rw same refl) finds)
    Leads-kept (leads_on {d = d} ms u o finds rest) ends =
        let (v, read, path) = read_kept d u (Finds-read_inode tree.io finds) in
        leads_on ms v (Opens-kept o ends.0) (Finds-kept v read finds) (Leads-kept rest ends.1)

    -- The directory that the path starts from stays.
    pub Leads-start :
        {group owner n b : ℕ} {ws : List (List ℕ)} {u : Inode}
        → Leads tree.io group owner n b ws u
        → changed.read_inode b ≡ tree.io.read_inode b
    Leads-start {b = b} (leads_here ms o finds) = rw (other_block b ms o) refl
    Leads-start {b = b} (leads_on ms u o finds rest) = rw (other_block b ms o) refl

-- The inode at the end of a path is in the block that the path ends in.
pub Leads-read_inode :
    (io : DirIo) {group owner n b k : ℕ} {ws : List (List ℕ)} {t : Inode}
    (leads : Leads io group owner n b ws t)
    → EndsIn leads k
    → io.read_inode k ≡ some t
Leads-read_inode io {t = t} (leads_here ms o finds) ends =
    subst (λ k. io.read_inode k ≡ some t) ends.0 (Finds-read_inode io finds)
Leads-read_inode io (leads_on ms u o finds rest) ends = Leads-read_inode io rest ends.1
