-- ===== src/Fs/Directory/Chain.antt =====
-- The block maps of a directory in fs/dir.c as a list.
use ox.Base.{
  ℕ, suc, ◌+◌, ◌-◌, ◌/◌, ◌%◌, ◌≡◌, ◌≢◌, sym, ap, ◌∙◌, inl, inr, true, false, ◌==◌, Option, none,
  some, List, [], ◌∷◌, if◌then◌else◌, ltb, arith, Bool-cases,
}
use ox.Fs.Inode.{inode_null}
use ox.Fs.Directory.{bmap_blocks, BlockMap, DirIo, seek_map}

-- The numbers in the block maps of a directory, one map after the other.
unfoldable pub numbers : List (ℕ → ℕ) → ℕ → Option ℕ
numbers [] n = none
numbers (m ∷ ms) n = if ltb n bmap_blocks then some (m n) else numbers ms (n - bmap_blocks)

module _ (io : DirIo) where
  -- The block maps that are linked from a block on.
  abbrev pub Chain : ℕ → List (ℕ → ℕ) → Type 0
  Chain b [] = b ≡ inode_null
  Chain b (m ∷ ms) =
      (map : BlockMap) × (b ≢ inode_null)
      × (io.read_map b ≡ some map)
      × (map.blocks ≡ m)
      × Chain map.next ms

  -- A block of the list with the map of the n-th number, and that number.
  pub record Holds (b n d : ℕ) : Type 0 where
    pub map : BlockMap
    pub real : b ≢ inode_null
    pub read : io.read_map b ≡ some map
    pub number : map.blocks (n % bmap_blocks) ≡ d

  pub seek_map-Holds :
      (ms : List (ℕ → ℕ)) (b n d made : ℕ)
      → Chain b ms
      → numbers ms n ≡ some d
      → (c : ℕ) × (seek_map io (n / bmap_blocks) made b ≡ (true, made + n / bmap_blocks, c))
        × Holds c n d
  unfolding numbers seek_map
  seek_map-Holds [] b n d made chain h = absurd (cc)
  seek_map-Holds (m ∷ ms) b n d made (map, real, read, same, rest) h =
      elim (Bool-cases (ltb n bmap_blocks)) [
        | inl here ↦
            let none' : n / bmap_blocks ≡ 0 = ground arith in
            let whole : n % bmap_blocks ≡ n = ground arith in
            let at : m n ≡ d = ground arith in
            (
              b,
              rw none' (ap (λ k. (true, k, b)) (omega arith)),
              record { map = map; real = real; read = read; number = rw (whole, same) at },
            )
        | inr later ↦
            let less : n / bmap_blocks ≡ suc ((n - bmap_blocks) / bmap_blocks) = ground arith in
            let rest' : (n - bmap_blocks) % bmap_blocks ≡ n % bmap_blocks = ground arith in
            let (c, at, holds) =
              seek_map-Holds ms map.next (n - bmap_blocks) d (suc made) rest (ground arith) in
            let test : (b == inode_null) ≡ false = ground (arith, real) in
            (
              c,
              rw (less, test, read) (at ∙ ap (λ k. (true, k, c)) (omega arith)),
              record {
                map = holds.map;
                real = holds.real;
                read = holds.read;
                number = ap holds.map.blocks (sym rest') ∙ holds.number;
              },
            )
      ]
