-- ===== src/Fs/Block/Flush/Open.antt =====
-- block_open of fs/block.c on a cache that is not initialised, or that block_reinit reset.
use ox.Base.{
  ℕ, zero, suc, ◌+◌, ◌%◌, ◌<◌, ◌≡◌, ◌≢◌, refl, ◌∙◌, false, true, arith, ◌&&◌, update, if◌then◌else◌,
  leb, ltb,
}
use ox.Fs.Dev.{Sector, Ata, dev_open}
use ox.Fs.Block.{Slot, Store, block_ok, array_size, block_free_mark}
use ox.Fs.Block.Contents.{IsValid, IsCoherent, contents, contents_absent}
use ox.Fs.Block.Flush.{free_slot, init_loop, block_open}

init_loop_lem :
    (n i : ℕ) (zeroes : Sector) (slot : ℕ → Slot) (j : ℕ)
    → init_loop n i zeroes slot j ≡ (if leb i j && ltb j (i + n) then free_slot zeroes else slot j)
unfolding init_loop
init_loop_lem zero i zeroes slot j = ground arith
init_loop_lem (suc n) i zeroes slot j =
    init_loop_lem n (suc i) zeroes (update slot i (free_slot zeroes)) j ∙ ground arith

module _ {D : Type 0} (ata : Ata D) (s : Store D) (zeroes : Sector) (old : ℕ)
    (reset : s.init ≡ false) where
  abbrev opened : Store D
  opened = record s { init = true; slot = init_loop array_size 0 zeroes s.slot }

  block_open_lem : block_open ata s zeroes true true old ≡ (block_ok, (dev_open ata old).1, opened)
  unfolding block_open dev_open
  block_open_lem = ground arith

  all_free : (j : ℕ) → j < array_size → opened.slot j ≡ free_slot zeroes
  all_free j h = init_loop_lem array_size 0 zeroes s.slot j ∙ ground arith

  -- block_open of a cache that is not initialised, with both pointers given, on a machine with a
  -- drive: it succeeds, the cache it leaves is valid and coherent, and every used block of every
  -- device holds what the disk holds.
  pub block_open-contents :
      let r = block_open ata s zeroes true true old in
      (r.0 ≡ block_ok)
      × IsValid r.2.slot
      × IsCoherent ata r.2.slot r.2.disk
      × ((dev block : ℕ)
          → block ≢ block_free_mark
          → contents ata r.2.slot r.2.disk dev block ≡ ata.sector s.disk (dev % 256) block)
  block_open-contents = rw block_open_lem (
    refl,
    record {
      unique = λ i j hi hj ui eb ed. ground (arith, all_free i hi);
      devices = λ i hi ui. ground (arith, all_free i hi);
      free_clean = λ i hi di. ground (arith, all_free i hi);
    },
    λ i hi ui ci. ground (arith, all_free i hi),
    λ dev block used.
        contents_absent ata opened.slot s.disk dev block (λ j hj. ground (arith, all_free j hj)),
  )
