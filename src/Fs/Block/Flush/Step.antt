-- ===== src/Fs/Block/Flush/Step.antt =====
-- Writing a slot of the cache of fs/block.c to its sector.
use ox.Base.{
  ℕ, ◌%◌, ◌<◌, ◌≡◌, ◌≢◌, refl, sym, ◌∙◌, inl, inr, false, [], ◌∷◌, arith, Bool-cases, ◌==◌,
}
use ox.Fs.Dev.{Sector, Ata, IsDisk, dev_scan, dev_write}
use ox.Fs.Block.{Slot, Store, block_ok, array_size, block_free_mark, matches, differ}
use ox.Fs.Block.Contents.{IsValid, IsCoherent, locate, contents, contents_cached, contents_absent}
use ox.Fs.Block.Flush.{put_disk}

pub differ-false : (xs ys : Sector) → differ xs ys ≡ false → xs ≡ ys
unfolding differ
differ-false [] [] e = refl
differ-false [] (y ∷ ys) e = absurd (ground arith)
differ-false (x ∷ xs) [] e = absurd (ground arith)
differ-false (x ∷ xs) (y ∷ ys) e = ground (arith, differ-false xs ys)

module _ {D : Type 0} (ata : Ata D) (disk : IsDisk ata) where
  pub put_disk-ok :
      (s : Store D) (dev block : ℕ) (bytes : Sector)
      → (ata.write s.disk (dev % 256) block bytes).0 ≡ 0
      → put_disk ata s dev block bytes
        ≡ (block_ok, record s { disk = (ata.write s.disk (dev % 256) block bytes).1 })
  unfolding put_disk dev_scan dev_write
  put_disk-ok s dev block bytes e = ground arith

  module _ (slot : ℕ → Slot) (d : D) (i : ℕ) (valid : IsValid slot)
      (coherent : IsCoherent ata slot d) (inside : i < array_size)
      (used : (slot i).block ≢ block_free_mark)
      (works : (ata.write d ((slot i).dev % 256) (slot i).block (slot i).bytes).0 ≡ 0) where
    -- The disk after slot i was written to its sector.
    abbrev pub flushed : D
    flushed = (ata.write d ((slot i).dev % 256) (slot i).block (slot i).bytes).1

    pub flushed_holds : (slot i).bytes ≡ ata.sector flushed ((slot i).dev % 256) (slot i).block
    flushed_holds =
        sym (disk.write_sector d ((slot i).dev % 256) (slot i).block (slot i).bytes works)

    flushed_other :
        (dev block : ℕ)
        → dev < 256
        → matches (slot i) dev block ≡ false
        → ata.sector flushed (dev % 256) block ≡ ata.sector d (dev % 256) block
    flushed_other dev block small m =
        disk.write_other d ((slot i).dev % 256) (slot i).block (slot i).bytes (dev % 256) block
          (ground (arith, valid.devices i inside used))

    pub flushed-IsCoherent : IsCoherent ata slot flushed
    flushed-IsCoherent a ha ua ca = elim (Bool-cases (a == i)) [
      | inl here ↦ let e : a ≡ i = ground arith in rw e flushed_holds
      | inr other ↦
          coherent a ha ua ca
          ∙ sym (
              flushed_other (slot a).dev (slot a).block (valid.devices a ha ua)
                (ground (arith, valid.unique a i ha inside ua)))
    ]

    pub contents-flushed :
        (dev block : ℕ)
        → block ≢ block_free_mark
        → dev < 256
        → contents ata slot flushed dev block ≡ contents ata slot d dev block
    contents-flushed dev block used' small = elim (locate slot dev block) [
      | inl (j, h, m) ↦
          contents_cached ata slot flushed dev block j valid used' h m
          ∙ sym (contents_cached ata slot d dev block j valid used' h m)
      | inr absent ↦
          contents_absent ata slot flushed dev block absent
          ∙ flushed_other dev block small (absent i inside)
          ∙ sym (contents_absent ata slot d dev block absent)
    ]
