-- ===== src/Fs/Block/Install.antt =====
-- Putting a block into a slot of the cache of fs/block.c, over a slot that is free, clean or
-- the block's own: the step that the paths of block_read and block_write share.
use ox.Base.{
  ℕ, ◌%◌, ◌<◌, ◌≡◌, ◌≢◌, sym, ◌∙◌, inl, inr, ◌⊎◌, false, true, arith, Bool-cases, ◌==◌,
  if◌then◌else◌, update,
}
use ox.Fs.Dev.{Ata}
use ox.Fs.Block.{Slot, matches, array_size, block_free_mark}
use ox.Fs.Block.Contents.{
  IsValid, IsCoherent, IsAbsent, locate, contents, same_block, contents_cached, contents_absent,
}

-- Slot i may be given to the block (dev, block), which no other slot holds.
pub record MayHold (slot : ℕ → Slot) (i dev block : ℕ) : Type 0 where
  pub inside : i < array_size
  pub replaceable :
      ((slot i).block ≡ block_free_mark)
      ⊎ ((slot i).dirty ≡ false)
      ⊎ (matches (slot i) dev block ≡ true)
  pub others : (j : ℕ) → j < array_size → j ≢ i → matches (slot j) dev block ≡ false

module _ {D : Type 0} (ata : Ata D) (slot : ℕ → Slot) (disk : D) (i : ℕ) (e : Slot)
    (valid : IsValid slot) (coherent : IsCoherent ata slot disk)
    (may : MayHold slot i e.dev e.block) (used : e.block ≢ block_free_mark) (small : e.dev < 256)
    (fresh : e.dirty ≡ false → e.bytes ≡ ata.sector disk (e.dev % 256) e.block) where
  pub update-IsValid : IsValid (update slot i e)
  update-IsValid = record {
    unique =
        λ a b ha hb ua eb ed. ground (arith, valid.unique a b, may.others a ha, may.others b hb);
    devices = λ a ha ua. ground (arith, valid.devices a);
    free_clean = λ a ha da. ground (arith, valid.free_clean a);
  }

  pub update-IsCoherent : IsCoherent ata (update slot i e) disk
  update-IsCoherent a ha ua ca = ground (arith, fresh, coherent a ha)

  update-IsAbsent :
      (dev' block' : ℕ)
      → same_block e.dev e.block dev' block' ≡ false
      → ((j : ℕ) → j < array_size → j ≢ i → matches (slot j) dev' block' ≡ false)
      → IsAbsent (update slot i e) dev' block'
  update-IsAbsent dev' block' ne rest j h = ground (arith, rest j)

  contents_elsewhere :
      (dev' block' : ℕ)
      → block' ≢ block_free_mark
      → same_block e.dev e.block dev' block' ≡ false
      → contents ata (update slot i e) disk dev' block' ≡ contents ata slot disk dev' block'
  contents_elsewhere dev' block' used' ne = elim (locate slot dev' block') [
    | inl (j, h, m) ↦ elim (Bool-cases (j == i)) [
      -- The block is the one that gives way: its bytes were those of the disk.
      | inl here ↦
          contents_absent ata (update slot i e) disk dev' block'
            (update-IsAbsent dev' block' ne (λ k hk nk. ground (arith, valid.unique k j hk h)))
          ∙ sym (
              contents_cached ata slot disk dev' block' j valid used' h m
              ∙ ground (arith, coherent j h, may.replaceable))
      | inr other ↦
          contents_cached ata (update slot i e) disk dev' block' j update-IsValid used' h
            (ground arith)
          ∙ ground arith
          ∙ sym (contents_cached ata slot disk dev' block' j valid used' h m)
    ]
    | inr gone ↦
        contents_absent ata (update slot i e) disk dev' block'
          (update-IsAbsent dev' block' ne (λ k hk nk. gone k hk))
        ∙ sym (contents_absent ata slot disk dev' block' gone)
  ]

  -- After it the block has the new bytes, and every other block what it had.
  pub contents-update :
      (dev' block' : ℕ)
      → block' ≢ block_free_mark
      → contents ata (update slot i e) disk dev' block' ≡ (
          if same_block e.dev e.block dev' block'
          then e.bytes
          else contents ata slot disk dev' block')
  contents-update dev' block' used' = elim (Bool-cases (same_block e.dev e.block dev' block')) [
    | inl same ↦
        contents_cached ata (update slot i e) disk dev' block' i update-IsValid used' may.inside
          (ground arith)
        ∙ ground arith
    | inr other ↦ rw other (contents_elsewhere dev' block' used' other)
  ]
