-- ===== src/Fs/Block/ReadBack.antt =====
-- block_read after block_write in fs/block.c, on every path of the write.
use ox.Base.{ℕ, ◌<◌, ◌≡◌, refl, inl, inr, true, some, arith, Option-cases, is_negative, false}
use ox.Fs.Dev.{Sector, Ata}
use ox.Fs.Block.{
  Store, block_ok, array_size, clamp_curr, search, scan, write_miss, block_read, block_write,
  matches,
}
use ox.Fs.Block.Search.{search-some, search-curr, scan-Chosen}

module _ {D : Type 0} (ata : Ata D) where
  -- The block sits at `curr` with these bytes.
  pub record Placed (s : Store D) (dev block : ℕ) (bytes : Sector) : Type 0 where
    pub inside : s.curr < array_size
    pub owner : matches (s.slot s.curr) dev block ≡ true
    pub holds : (s.slot s.curr).bytes ≡ bytes

  module _ (s : Store D) (dev block : ℕ) (bytes : Sector) where
    write_miss-Placed :
        (write_miss ata s dev block bytes).0 ≡ block_ok
        → Placed (write_miss ata s dev block bytes).1 dev block bytes
    unfolding write_miss
    write_miss-Placed =
        let found = scan s.highest s.slot in
        let chosen = scan-Chosen s.slot s.highest in
        elim (Option-cases found.free) [
          | inr (i, e) ↦ ground (arith, chosen.free_slot i)
          | inl e ↦ elim (Option-cases found.clean) [
            | inr (i, e') ↦ ground (arith, chosen.clean_slot i)
            | inl e' ↦ elim (Option-cases found.dirty) [
              | inr (i, e'') ↦ ground (arith, chosen.dirty_slot i)
              | inl e'' ↦ ground arith
            ]
          ]
        ]

  module _ (s : Store D) (dev block : ℕ) (bytes : Sector) where
    pub block_write-Placed :
        (block_write ata s dev block bytes).0 ≡ block_ok
        → Placed (block_write ata s dev block bytes).1 dev block bytes
    unfolding block_write
    block_write-Placed =
        let curr = clamp_curr s.curr in
        let inside : curr < array_size = ground arith in
        elim (Option-cases (search curr s.slot dev block)) [
          | inr (i, e) ↦ ground (arith, search-some s.slot dev block curr i inside)
          | inl e ↦
              rw (e, block_write) (write_miss-Placed (record s { curr = curr }) dev block bytes)
        ]

  Placed-read :
      (s : Store D) (dev block : ℕ) (bytes out : Sector)
      → is_negative dev ≡ false
      → Placed s dev block bytes
      → ((block_read ata s dev block out).0 ≡ block_ok)
        × ((block_read ata s dev block out).1 ≡ bytes)
  unfolding block_read
  Placed-read s dev block bytes out plain p =
      let stay : clamp_curr s.curr ≡ s.curr = ground (arith, p.inside) in
      let hit : search (clamp_curr s.curr) s.slot dev block ≡ some s.curr =
        rw stay (search-curr s.slot dev block s.curr p.inside p.owner) in
      rw (plain, hit, block_read) (refl, p.holds)

  -- For any state of the cache and any disk: if the device number is not negative and block_write
  -- returns success, then block_read of the same block at once returns success and the bytes
  -- written.
  pub block_write-block_read :
      (s : Store D) (dev block : ℕ) (bytes out : Sector)
      → is_negative dev ≡ false
      → (block_write ata s dev block bytes).0 ≡ block_ok
      → let s' = (block_write ata s dev block bytes).1 in
        ((block_read ata s' dev block out).0 ≡ block_ok)
        × ((block_read ata s' dev block out).1 ≡ bytes)
  block_write-block_read s dev block bytes out plain e =
      Placed-read _ dev block bytes out plain (block_write-Placed s dev block bytes e)
