-- ===== src/Fs/File/Layout.antt =====
-- Where the blocks of a file lie: the numbers of its block maps and of its blocks in their order, and
-- what the block maps have.
use ox.Base.{
  ℕ, suc, ◌/◌, ◌%◌, ◌≤◌, ◌<◌, ◌≡◌, ◌≢◌, ◌==◌, ◌∙◌, ap, refl, Bool, true, false, inl, inr, update,
  arith, Bool-cases, ==_iff, if◌then◌else◌,
}
use ox.Fs.Inode.{inode_null, block_size}
use ox.Fs.Directory.{BlockMap, bmap_blocks}
use ox.Fs.File.{Run}

-- `self` is the block of the inode, and `last` the number of the last block.
pub record FileLayout : Type 0 where
  pub self : ℕ
  pub last : ℕ
  pub maps : ℕ → ℕ
  pub blocks : ℕ → ℕ
  pub bmap : ℕ → BlockMap

abbrev pub last_map : FileLayout → ℕ
last_map l = l.last / bmap_blocks

-- The block maps of d are those of the layout, and no two of its numbers are equal.
pub record IsLaid (parse : (ℕ → ℕ) → BlockMap) (d : ℕ → ℕ → ℕ) (l : FileLayout) : Type 0 where
  pub linked : (k : ℕ) → k < last_map l → (l.bmap k).next ≡ l.maps (suc k)
  pub listed :
      (n : ℕ) → n ≤ l.last → (l.bmap (n / bmap_blocks)).blocks (n % bmap_blocks) ≡ l.blocks n
  pub map_used : (k : ℕ) → k ≤ last_map l → l.maps k ≢ inode_null
  pub block_used : (n : ℕ) → n ≤ l.last → l.blocks n ≢ inode_null
  pub map_at : (k : ℕ) → k ≤ last_map l → parse (d (l.maps k)) ≡ l.bmap k
  pub apart : (n m : ℕ) → n ≤ l.last → m ≤ l.last → l.blocks n ≡ l.blocks m → n ≡ m
  pub no_map : (n k : ℕ) → n ≤ l.last → k ≤ last_map l → l.maps k ≢ l.blocks n
  pub no_self : (n : ℕ) → n ≤ l.last → l.blocks n ≢ l.self
  pub self_no_map : (k : ℕ) → k ≤ last_map l → l.maps k ≢ l.self

-- The block map at hand is that of block n.
pub record IsAt (l : FileLayout) (n : ℕ) (r : Run) : Type 0 where
  pub start_at : r.start ≡ l.blocks n
  pub current_at : r.current ≡ l.maps (n / bmap_blocks)
  pub iblock_at : r.iblock ≡ n % bmap_blocks
  pub bmap_at : r.bmap ≡ l.bmap (n / bmap_blocks)

-- The byte of a file at a position.
abbrev pub file_byte : FileLayout → (ℕ → ℕ → ℕ) → ℕ → ℕ
file_byte l d p = d (l.blocks (p / block_size)) (p % block_size)

-- The layout stays if the block maps do.
pub IsLaid-keep :
    {parse : (ℕ → ℕ) → BlockMap} {d d' : ℕ → ℕ → ℕ} {l : FileLayout}
    → IsLaid parse d l
    → ((k : ℕ) → k ≤ last_map l → d' (l.maps k) ≡ d (l.maps k))
    → IsLaid parse d' l
IsLaid-keep {parse} laid same = record {
  linked = laid.linked;
  listed = laid.listed;
  map_used = laid.map_used;
  block_used = laid.block_used;
  map_at = λ k in_range. ap parse (same k in_range) ∙ laid.map_at k in_range;
  apart = laid.apart;
  no_map = laid.no_map;
  no_self = laid.no_self;
  self_no_map = laid.self_no_map;
}

module _ {parse : (ℕ → ℕ) → BlockMap} {d : ℕ → ℕ → ℕ} {l : FileLayout}
    (laid : IsLaid parse d l) where
  pub IsLaid-update : (n : ℕ) (t : ℕ → ℕ) → n ≤ l.last → IsLaid parse (update d (l.blocks n) t) l
  IsLaid-update n t inside =
      IsLaid-keep laid (λ k in_range. ground (arith, laid.no_map n k inside in_range))

  pub IsLaid-update_self : (t : ℕ → ℕ) → IsLaid parse (update d l.self t) l
  IsLaid-update_self t =
      IsLaid-keep laid (λ k in_range. ground (arith, laid.self_no_map k in_range))

  -- A byte of one block changes one byte of the file.
  pub file_byte-update :
      (p q v : ℕ) (t : ℕ → ℕ)
      → p / block_size ≤ l.last
      → q / block_size ≤ l.last
      → file_byte l (update d (l.blocks (p / block_size)) (update t (p % block_size) v)) q
        ≡ (if q == p then v else file_byte l (update d (l.blocks (p / block_size)) t) q)
  file_byte-update p q v t small small' =
      elim (Bool-cases (l.blocks (q / block_size) == l.blocks (p / block_size))) [
        | inl e ↦
            let same : q / block_size ≡ p / block_size =
              laid.apart _ _ small' small ((==_iff _ _).0 e) in
            elim (Bool-cases (q == p)) [
              | inl f ↦
                  let byte : (q % block_size == p % block_size) ≡ true = ground arith in
                  rw (e, f, byte) refl
              | inr f ↦
                  let byte : (q % block_size == p % block_size) ≡ false = ground arith in
                  rw (e, f, byte) refl
            ]
        | inr e ↦ let other : (q == p) ≡ false = ground arith in rw (e, other) refl
      ]

  pub file_byte-self :
      (q : ℕ) (t : ℕ → ℕ)
      → q / block_size ≤ l.last
      → file_byte l (update d l.self t) q ≡ file_byte l d q
  file_byte-self q t small = ground (arith, laid.no_self (q / block_size) small)

pub IsAt-moved :
    {l : FileLayout} {n : ℕ} {r : Run}
    → IsAt l n r
    → (i byte : ℕ) (dptr : ℕ → ℕ) (flag : Bool)
    → IsAt l n (record r { i = i; byte = byte; dptr = dptr; write_flag = flag })
IsAt-moved at i byte dptr flag = record {
  start_at = at.start_at;
  current_at = at.current_at;
  iblock_at = at.iblock_at;
  bmap_at = at.bmap_at;
}
