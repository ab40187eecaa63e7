-- ===== src/Fs/Block/Write.antt =====
-- block_write of fs/block.c, on a cache with room.
use ox.Base.{
  ℕ, ◌<◌, ◌≡◌, ◌≢◌, refl, inl, inr, ◌⊎◌, false, true, arith, Option-cases, if◌then◌else◌, update,
}
use ox.Fs.Dev.{Sector, Ata}
use ox.Fs.Block.{
  Store, BlockRtvl, block_ok, array_size, block_free_mark, clamp_curr, search, scan, write_miss,
  block_write, matches,
}
use ox.Fs.Block.Search.{HasRoom, search-some, search-none, scan-Chosen, scan_finds}
use ox.Fs.Block.Contents.{IsValid, IsCoherent, IsCached, IsAbsent, contents, same_block}
use ox.Fs.Block.Install.{MayHold, update-IsValid, update-IsCoherent, contents-update}

module _ {D : Type 0} (ata : Ata D) where
  -- `s'` differs from `s` in what the block (dev, block) holds, which is `bytes`.
  pub record Updated (s : Store D) (dev block : ℕ) (bytes : Sector) (s' : Store D) : Type 0 where
    pub valid : IsValid s'.slot
    pub coherent : IsCoherent ata s'.slot s'.disk
    pub updated :
        (dev' block' : ℕ)
        → block' ≢ block_free_mark
        → contents ata s'.slot s'.disk dev' block' ≡ (
            if same_block dev block dev' block'
            then bytes
            else contents ata s.slot s.disk dev' block')

  abbrev pub Writes : Store D → ℕ → ℕ → Sector → BlockRtvl × Store D → Type 0
  Writes s dev block bytes r = (r.0 ≡ block_ok) × Updated s dev block bytes r.1

  module _ (s : Store D) (dev block : ℕ) (bytes : Sector) (valid : IsValid s.slot)
      (coherent : IsCoherent ata s.slot s.disk) (used : block ≢ block_free_mark)
      (small : dev < 256) where
    -- A dirty slot for the block, over slot i.
    put-Updated :
        (curr highest i lru : ℕ)
        → MayHold s.slot i dev block
        → Updated s dev block bytes (record s {
          curr = curr;
          highest = highest;
          slot =
              update s.slot i
                (record { lru = lru; block = block; dev = dev; dirty = true; bytes = bytes });
        })
    put-Updated curr highest i lru may = record {
      valid = update-IsValid ata s.slot s.disk i _ valid coherent may used small (λ c. cc);
      coherent = update-IsCoherent ata s.slot s.disk i _ valid coherent may used small (λ c. cc);
      updated = contents-update ata s.slot s.disk i _ valid coherent may used small (λ c. cc);
    }

    miss-Writes :
        (curr : ℕ)
        → IsAbsent s.slot dev block
        → HasRoom s.slot
        → Writes s dev block bytes (write_miss ata (record s { curr = curr }) dev block bytes)
    unfolding write_miss
    miss-Writes curr absent room =
        let found = scan s.highest s.slot in
        let chosen = scan-Chosen s.slot s.highest in
        elim (Option-cases found.free) [
          | inr (i, e) ↦
              let c = chosen.free_slot i e in
              rw (e, write_miss) (refl, put-Updated i _ i _ (over i c.0 (inl c.1)))
          | inl e ↦ elim (Option-cases found.clean) [
            | inr (i, e') ↦
                let c = chosen.clean_slot i e' in
                rw (e, e', write_miss) (refl, put-Updated i _ i _ (over i c.0 (inr c.1)))
            | inl e' ↦ absurd (scan_finds s.slot s.highest room e e')
          ]
        ]
      where
        over :
            (i : ℕ)
            → i < array_size
            → ((s.slot i).block ≡ block_free_mark) ⊎ ((s.slot i).dirty ≡ false)
            → MayHold s.slot i dev block
        over i h r = record {
          inside = h;
          replaceable = ground arith;
          others = λ j hj nj. absent j hj;
        }

    hit-Writes :
        (curr i lru : ℕ)
        → i < array_size
        → matches (s.slot i) dev block ≡ true
        → Updated s dev block bytes (record s {
          curr = curr;
          slot = update s.slot i (record (s.slot i) { lru = lru; dirty = true; bytes = bytes });
        })
    hit-Writes curr i lru h m =
        let eb : (s.slot i).block ≡ block = ground arith in
        let ed : (s.slot i).dev ≡ dev = ground arith in
        rw (eb, ed) (put-Updated curr s.highest i lru may)
      where
        may : MayHold s.slot i dev block
        may = record {
          inside = h;
          replaceable = inr (inr m);
          others = λ j hj nj. ground (arith, valid.unique i j h hj);
        }

    -- block_write on a valid and coherent cache, for a used block number and a device below 256:
    -- if the block is cached or the cache has a free or a clean slot that can be chosen, the call
    -- succeeds, the block then holds the bytes written and every other block of every device what
    -- it held, and the cache stays valid and coherent.
    pub block_write-Writes :
        IsCached s.slot dev block ⊎ HasRoom s.slot
        → Writes s dev block bytes (block_write ata s dev block bytes)
    unfolding block_write
    block_write-Writes room =
        let curr = clamp_curr s.curr in
        let inside : curr < array_size = ground arith in
        elim (Option-cases (search curr s.slot dev block)) [
          | inr (i, e) ↦
              let f = search-some s.slot dev block curr i inside e in
              rw (e, block_write) (refl, hit-Writes i i _ f.0 f.1)
          | inl e ↦
              let absent =
                λ (j : ℕ) (h : j < array_size). search-none s.slot dev block curr j inside e h in
              rw (e, block_write) (miss-Writes curr absent (no_hit room absent))
        ]
      where
        no_hit :
            IsCached s.slot dev block ⊎ HasRoom s.slot → IsAbsent s.slot dev block → HasRoom s.slot
        no_hit (inl (j, h, m)) absent = absurd (ground (arith, absent j h))
        no_hit (inr room) absent = room
