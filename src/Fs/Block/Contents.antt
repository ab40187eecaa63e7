-- ===== src/Fs/Block/Contents.antt =====
-- What the buffer cache of fs/block.c stands for: a block of a device holds what its slot holds if
-- it is cached, and else what the disk holds. The invariant of the cache, and its coherence.
use ox.Base.{
  ℕ, ◌%◌, ◌<◌, ◌≡◌, ◌≢◌, inl, inr, ◌⊎◌, Bool, false, true, none, some, arith, Option-cases, ◌&&◌,
  ◌==◌, if◌then◌else◌,
}
use ox.Fs.Dev.{Sector, Ata}
use ox.Fs.Block.{Slot, matches, find_slot, array_size, block_free_mark}
use ox.Fs.Block.Search.{find_slot-some, find_slot-none}

-- Is (dev', block') the pair (dev, block)?
abbrev pub same_block : ℕ → ℕ → ℕ → ℕ → Bool
same_block dev block dev' block' = (block' == block) && (dev' == dev)

abbrev pub IsAbsent : (ℕ → Slot) → ℕ → ℕ → Type 0
IsAbsent slot dev block = (j : ℕ) → j < array_size → matches (slot j) dev block ≡ false

abbrev pub IsCached : (ℕ → Slot) → ℕ → ℕ → Type 0
IsCached slot dev block = (j : ℕ) × (j < array_size) × (matches (slot j) dev block ≡ true)

pub locate : (slot : ℕ → Slot) (dev block : ℕ) → IsCached slot dev block ⊎ IsAbsent slot dev block
locate slot dev block = elim (Option-cases (find_slot array_size 0 slot dev block)) [
  | inl e ↦ inr (λ j h. find_slot-none slot dev block array_size 0 j e (omega arith) h)
  | inr (i, e) ↦ let f = find_slot-some slot dev block array_size 0 i e in inl (i, f.1, f.2)
]

-- No block sits in two slots, the slots' devices are driver numbers, and a free slot is clean.
pub record IsValid (slot : ℕ → Slot) : Type 0 where
  pub unique :
      (i j : ℕ)
      → i < array_size
      → j < array_size
      → (slot i).block ≢ block_free_mark
      → (slot i).block ≡ (slot j).block
      → (slot i).dev ≡ (slot j).dev
      → i ≡ j
  pub devices : (i : ℕ) → i < array_size → (slot i).block ≢ block_free_mark → (slot i).dev < 256
  pub free_clean :
      (i : ℕ) → i < array_size → (slot i).dirty ≡ true → (slot i).block ≢ block_free_mark

module _ {D : Type 0} (ata : Ata D) (slot : ℕ → Slot) (disk : D) where
  pub contents : ℕ → ℕ → Sector
  contents dev block = elim (find_slot array_size 0 slot dev block) [
    | some i ↦ (slot i).bytes
    | none ↦ ata.sector disk (dev % 256) block
  ]

  -- A clean slot agrees with the disk.
  abbrev pub IsCoherent : Type 0
  IsCoherent =
      (i : ℕ)
      → i < array_size
      → (slot i).block ≢ block_free_mark
      → (slot i).dirty ≡ false
      → (slot i).bytes ≡ ata.sector disk ((slot i).dev % 256) (slot i).block

  pub contents_cached :
      (dev block i : ℕ)
      → IsValid slot
      → block ≢ block_free_mark
      → i < array_size
      → matches (slot i) dev block ≡ true
      → contents dev block ≡ (slot i).bytes
  unfolding contents
  contents_cached dev block i v used h m =
      elim (Option-cases (find_slot array_size 0 slot dev block)) [
        | inl e ↦
            absurd
              (ground (arith, find_slot-none slot dev block array_size 0 i e (omega arith) h, m))
        | inr (j, e) ↦
            let f = find_slot-some slot dev block array_size 0 j e in
            let same : j ≡ i = v.unique j i f.1 h (ground arith) (ground arith) (ground arith) in
            rw (e, contents, same)
      ]

  pub contents_absent :
      (dev block : ℕ)
      → IsAbsent slot dev block
      → contents dev block ≡ ata.sector disk (dev % 256) block
  unfolding contents
  contents_absent dev block none_there =
      elim (Option-cases (find_slot array_size 0 slot dev block)) [
        | inl e ↦ rw (e, contents)
        | inr (j, e) ↦
            let f = find_slot-some slot dev block array_size 0 j e in
            absurd (ground (arith, none_there j f.1))
      ]

  -- Putting what a block holds already.
  pub if_same :
      (dev block dev' block' : ℕ) (x : Sector)
      → x ≡ contents dev block
      → (if same_block dev block dev' block' then x else contents dev' block')
        ≡ contents dev' block'
  if_same dev block dev' block' x e = ground arith
