-- ===== src/Fs/Block/Read.antt =====
-- block_read of fs/block.c, on a cache with room.
use ox.Base.{
  ℕ, ◌%◌, ◌<◌, ◌≡◌, ◌≢◌, refl, sym, ◌∙◌, inl, inr, ◌⊎◌, false, true, arith, Option-cases, update,
  is_negative,
}
use ox.Fs.Dev.{Sector, Ata, IsDisk, dev_read, dev_scan}
use ox.Fs.Block.{
  Slot, Store, BlockRtvl, block_ok, array_size, block_free_mark, clamp_curr, search, scan,
  used_again, install, load_into, read_miss, block_read, matches,
}
use ox.Fs.Block.Search.{HasRoom, search-some, search-none, scan-Chosen, scan_finds}
use ox.Fs.Block.Contents.{
  IsValid, IsCoherent, IsCached, IsAbsent, contents, contents_cached, contents_absent, if_same,
}
use ox.Fs.Block.Install.{MayHold, update-IsValid, update-IsCoherent, contents-update}

module _ {D : Type 0} (ata : Ata D) where
  -- The cache `s'` stands for the same blocks as `s`, and is well formed.
  pub record SameContents (s s' : Store D) : Type 0 where
    pub valid : IsValid s'.slot
    pub coherent : IsCoherent ata s'.slot s'.disk
    pub same :
        (dev block : ℕ)
        → block ≢ block_free_mark
        → contents ata s'.slot s'.disk dev block ≡ contents ata s.slot s.disk dev block

  -- What a read of a block returns when all goes well.
  abbrev pub Reads : Store D → ℕ → ℕ → BlockRtvl × Sector × Store D → Type 0
  Reads s dev block r =
      (r.0 ≡ block_ok) × (r.1 ≡ contents ata s.slot s.disk dev block) × SameContents s r.2

  load_into-ok :
      (s : Store D) (i dev block old : ℕ) (out : Sector)
      → IsDisk ata
      → ((buf : Sector) → (ata.read s.disk (dev % 256) block buf).0 ≡ 0)
      → load_into ata s i dev block old out ≡ (
        block_ok,
        ata.sector s.disk (dev % 256) block,
        install s i dev block false (ata.sector s.disk (dev % 256) block),
      )
  unfolding load_into dev_scan dev_read
  load_into-ok s i dev block old out disk works =
      ground
        (arith, works (s.slot i).bytes, disk.read_sector s.disk (dev % 256) block (s.slot i).bytes)

  module _ (s : Store D) (dev block : ℕ) (out : Sector) (disk : IsDisk ata) (valid : IsValid s.slot)
      (coherent : IsCoherent ata s.slot s.disk) (used : block ≢ block_free_mark) (small : dev < 256)
      (works : (buf : Sector) → (ata.read s.disk (dev % 256) block buf).0 ≡ 0) where
    -- Loading a block that is not cached into a free or a clean slot.
    load-Reads :
        (curr highest i old : ℕ)
        → IsAbsent s.slot dev block
        → i < array_size
        → ((s.slot i).block ≡ block_free_mark) ⊎ ((s.slot i).dirty ≡ false)
        → Reads s dev block
            (load_into ata (record s { curr = curr; highest = highest }) i dev block old out)
    load-Reads curr highest i old absent h room =
        let u = record s { curr = curr; highest = highest } in
        rw (load_into-ok u i dev block old out disk works) (
          refl,
          sym (contents_absent ata s.slot s.disk dev block absent),
          record {
            valid = update-IsValid ata s.slot s.disk i _ valid coherent may used small (λ e. refl);
            coherent =
                update-IsCoherent ata s.slot s.disk i _ valid coherent may used small (λ e. refl);
            same = λ dev' block' used'.
                contents-update ata s.slot s.disk i _ valid coherent may used small (λ e. refl) dev'
                  block' used'
                ∙ if_same ata s.slot s.disk dev block dev' block' _
                    (sym (contents_absent ata s.slot s.disk dev block absent));
          },
        )
      where
        may : MayHold s.slot i dev block
        may = record { inside = h; replaceable = ground arith; others = λ j hj nj. absent j hj }

    hit-Reads :
        (curr i : ℕ)
        → i < array_size
        → matches (s.slot i) dev block ≡ true
        → Reads s dev block (
          block_ok,
          (s.slot i).bytes,
          record s { curr = i; slot = update s.slot i (used_again (s.slot i)) },
        )
    hit-Reads curr i h m = (
      refl,
      sym here,
      record {
        valid =
            update-IsValid ata s.slot s.disk i e valid coherent may (ground arith) (ground arith)
              fresh;
        coherent =
            update-IsCoherent ata s.slot s.disk i e valid coherent may (ground arith) (ground arith)
              fresh;
        same = λ dev' block' used'.
            contents-update ata s.slot s.disk i e valid coherent may (ground arith) (ground arith)
              fresh dev' block' used'
            ∙ if_same ata s.slot s.disk e.dev e.block dev' block' e.bytes (ground (arith, here));
      },
    )
      where
        e : Slot
        e = used_again (s.slot i)

        here : contents ata s.slot s.disk dev block ≡ (s.slot i).bytes
        here = contents_cached ata s.slot s.disk dev block i valid used h m

        may : MayHold s.slot i (s.slot i).dev (s.slot i).block
        may = record {
          inside = h;
          replaceable = ground arith;
          others = λ j hj nj. ground (arith, valid.unique i j h hj);
        }

        fresh :
            (s.slot i).dirty ≡ false
            → (s.slot i).bytes ≡ ata.sector s.disk ((s.slot i).dev % 256) (s.slot i).block
        fresh c = coherent i h (ground arith) c

    miss-Reads :
        (curr : ℕ)
        → IsAbsent s.slot dev block
        → HasRoom s.slot
        → Reads s dev block (read_miss ata (record s { curr = curr }) dev block out)
    unfolding read_miss
    miss-Reads curr absent room =
        let found = scan s.highest s.slot in
        let chosen = scan-Chosen s.slot s.highest in
        elim (Option-cases found.free) [
          | inr (i, e) ↦
              let c = chosen.free_slot i e in
              rw (e, read_miss)
                (load-Reads curr found.highest i block_free_mark absent c.0 (inl c.1))
          | inl e ↦ elim (Option-cases found.clean) [
            | inr (i, e') ↦
                let c = chosen.clean_slot i e' in
                rw (e, e', read_miss)
                  (load-Reads curr found.highest i (s.slot i).block absent c.0 (inr c.1))
            | inl e' ↦ absurd (scan_finds s.slot s.highest room e e')
          ]
        ]

    -- block_read on a valid and coherent cache, for a used block number and a device below 256,
    -- over a disk that keeps what is written and whose reads of the block succeed: if the block
    -- is cached or the cache has a free or a clean slot that can be chosen, the call succeeds,
    -- returns the bytes that the cache and the disk hold for the block, leaves the cache valid
    -- and coherent, and changes what no block of any device holds.
    pub block_read-Reads :
        IsCached s.slot dev block ⊎ HasRoom s.slot
        → Reads s dev block (block_read ata s dev block out)
    unfolding block_read
    block_read-Reads room =
        let plain : is_negative dev ≡ false = ground arith in
        let curr = clamp_curr s.curr in
        let inside : curr < array_size = ground arith in
        elim (Option-cases (search curr s.slot dev block)) [
          | inr (i, e) ↦
              let f = search-some s.slot dev block curr i inside e in
              rw (plain, e, block_read) (hit-Reads curr i f.0 f.1)
          | inl e ↦
              let absent =
                λ (j : ℕ) (h : j < array_size). search-none s.slot dev block curr j inside e h in
              rw (plain, e, block_read) (miss-Reads curr absent (no_hit room absent))
        ]
      where
        no_hit :
            IsCached s.slot dev block ⊎ HasRoom s.slot → IsAbsent s.slot dev block → HasRoom s.slot
        no_hit (inl (j, h, m)) absent = absurd (ground (arith, absent j h))
        no_hit (inr room) absent = room
