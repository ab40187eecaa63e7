-- ===== src/Fs/Block/Evict.antt =====
-- The dirty path of block_read in fs/block.c, on a cache that is full of dirty blocks.
use ox.Base.{
  ℕ, zero, suc, ◌+◌, ◌%◌, ◌<◌, ◌≡◌, ◌≢◌, refl, ◌∙◌, inl, inr, false, true, none, arith,
  Option-cases, is_negative, ◌==◌,
}
use ox.Fs.Dev.{Sector, Ata, IsDisk, dev_read, dev_write, dev_scan}
use ox.Fs.Block.{
  Slot, Scan, Store, BlockRtvl, block_ok, array_size, block_free_mark, max_lru, clamp_curr, search,
  visit, scan_loop, scan, load_into, write_victim, read_miss, block_read,
}
use ox.Fs.Block.Search.{scan-Chosen, search-some}

-- Every slot holds a dirty block of the device, and no count is at its limit.
pub record IsFull (slot : ℕ → Slot) (dev : ℕ) : Type 0 where
  pub used : (i : ℕ) → i < array_size → (slot i).block ≢ block_free_mark
  pub dirty : (i : ℕ) → i < array_size → (slot i).dirty ≡ true
  pub counts : (i : ℕ) → i < array_size → (slot i).lru < max_lru
  pub devices : (i : ℕ) → i < array_size → (slot i).dev ≡ dev

abbrev StaysDirty : Scan → Type 0
StaysDirty a = (a.free ≡ none) × (a.clean ≡ none)

module _ (slot : ℕ → Slot) (dev : ℕ) (full : IsFull slot dev) where
  visit-StaysDirty :
      (i : ℕ) (a : Scan) → i < array_size → StaysDirty a → StaysDirty (visit (slot i) i a)
  unfolding visit
  visit-StaysDirty i a h d = ground (arith, full.dirty i)

  visit_keeps : (i : ℕ) (a : Scan) → a.dirty ≢ none → (visit (slot i) i a).dirty ≢ none
  unfolding visit
  visit_keeps i a h e = ground arith

  visit_first :
      (i : ℕ) (a : Scan)
      → i < array_size
      → a.dirty_lru ≡ max_lru
      → (visit (slot i) i a).dirty ≢ none
  unfolding visit
  visit_first i a h e f = ground (arith, full.dirty i, full.counts i)

  scan_loop_full :
      (n i : ℕ) (a : Scan)
      → i + n ≡ array_size
      → StaysDirty a
      → a.dirty ≢ none
      → StaysDirty (scan_loop n i slot a) × ((scan_loop n i slot a).dirty ≢ none)
  unfolding scan_loop
  scan_loop_full zero i a h d k = (d, k)
  scan_loop_full (suc n) i a h d k =
      let busy : ((slot i).block == block_free_mark) ≡ false = ground (arith, full.used i) in
      rw busy (
        scan_loop_full n (suc i) (visit (slot i) i a) (omega arith)
          (visit-StaysDirty i a (omega arith) d) (visit_keeps i a k))

  pub scan_full :
      (highest : ℕ) → StaysDirty (scan highest slot) × ((scan highest slot).dirty ≢ none)
  unfolding scan scan_loop
  scan_full highest =
      let busy : ((slot 0).block == block_free_mark) ≡ false = ground (arith, full.used 0) in
      rw busy (
        scan_loop_full 127 1 (visit (slot 0) 0 _) refl
          (visit-StaysDirty 0 _ (omega arith) (refl, refl)) (visit_first 0 _ (omega arith) refl))

module _ {D : Type 0} (ata : Ata D) (disk : IsDisk ata) where
  -- The victim of the dirty path is written to the sector of the requested block.
  write_victim-ok :
      (s : Store D) (i dev block : ℕ)
      → (s.slot i).dev ≡ dev
      → (ata.write s.disk (dev % 256) block (s.slot i).bytes).0 ≡ 0
      → write_victim ata s i block
        ≡ (true, record s { disk = (ata.write s.disk (dev % 256) block (s.slot i).bytes).1 })
  unfolding write_victim dev_scan dev_write
  write_victim-ok s i dev block ed works = ground arith

  load_into-out :
      (s : Store D) (i dev block old : ℕ) (out : Sector)
      → (ata.read s.disk (dev % 256) block (s.slot i).bytes).0 ≡ 0
      → ((load_into ata s i dev block old out).0 ≡ block_ok)
        × ((load_into ata s i dev block old out).1 ≡ ata.sector s.disk (dev % 256) block)
        × ((load_into ata s i dev block old out).2.disk ≡ s.disk)
  unfolding load_into dev_scan dev_read
  load_into-out s i dev block old out works =
      ground (arith, disk.read_sector s.disk (dev % 256) block (s.slot i).bytes)

  module _ (s : Store D) (dev block : ℕ) (out : Sector) (full : IsFull s.slot dev)
      (small : dev < 256) (absent : (j : ℕ) → j < array_size → (s.slot j).block ≢ block)
      (writes : (buf : Sector) → (ata.write s.disk (dev % 256) block buf).0 ≡ 0)
      (reads : (d : D) (buf : Sector) → (ata.read d (dev % 256) block buf).0 ≡ 0) where
    -- What goes wrong at the victim i of a read: its bytes come back in place of the block's, they
    -- are now what the disk holds for the block, and its own sector was not written.
    abbrev pub Clobbered : ℕ → BlockRtvl × Sector × Store D → Type 0
    Clobbered i r =
        (r.0 ≡ block_ok)
        × (r.1 ≡ (s.slot i).bytes)
        × (ata.sector r.2.disk (dev % 256) block ≡ (s.slot i).bytes)
        × (ata.sector r.2.disk (dev % 256) (s.slot i).block
            ≡ ata.sector s.disk (dev % 256) (s.slot i).block)

    read_miss_full :
        (curr : ℕ)
        → (i : ℕ) × (i < array_size)
          × Clobbered i (read_miss ata (record s { curr = curr }) dev block out)
    unfolding read_miss
    read_miss_full curr =
        let found = scan s.highest s.slot in
        let chosen = scan-Chosen s.slot s.highest in
        let none_free = scan_full s.slot dev full s.highest in
        elim (Option-cases found.dirty) [
          | inl e ↦ absurd (none_free.1 e)
          | inr (i, e) ↦
              let h = (chosen.dirty_slot i e).0 in
              let u = record s { curr = curr; highest = found.highest } in
              let d = (ata.write s.disk (dev % 256) block (s.slot i).bytes).1 in
              let v = record u { disk = d } in
              let l = load_into-out v i dev block (s.slot i).block out (reads d _) in
              let w = disk.write_sector s.disk (dev % 256) block (s.slot i).bytes (writes _) in
              (
                i,
                h,
                rw
                    (
                      none_free.0.0,
                      none_free.0.1,
                      e,
                      write_victim-ok u i dev block (full.devices i h) (writes _),
                      read_miss,
                    )
                    (
                      l.0,
                      l.1 ∙ w,
                      rw (l.2) w,
                      rw (l.2) (
                          disk.write_other s.disk (dev % 256) block (s.slot i).bytes (dev % 256)
                            (s.slot i).block (inr (absent i h))),
                    ),
              )
        ]

    -- block_read, when every slot holds a dirty block of the device of the call, which is below
    -- 256, with a count below the limit, and none has the number of the block, over a disk that
    -- keeps what is written and whose write and reads of the block succeed: there is a slot whose
    -- block is lost. The call reports success, returns that slot's bytes in place of the block's,
    -- has the disk hold them for the block, and leaves the sector of the slot's own block as it
    -- was.
    pub block_read_full : (i : ℕ) × (i < array_size) × Clobbered i (block_read ata s dev block out)
    unfolding block_read
    block_read_full =
        let plain : is_negative dev ≡ false = ground arith in
        let curr = clamp_curr s.curr in
        let inside : curr < array_size = ground arith in
        elim (Option-cases (search curr s.slot dev block)) [
          | inr (i, e) ↦
              let f = search-some s.slot dev block curr i inside e in
              absurd (absent i f.0 (ground (arith, f.1)))
          | inl e ↦ rw (plain, e, block_read) (read_miss_full curr)
        ]
