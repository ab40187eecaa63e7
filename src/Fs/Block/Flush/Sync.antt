-- ===== src/Fs/Block/Flush/Sync.antt =====
-- A round of the loop of block_sync in fs/block.c.
use ox.Base.{
  ℕ, ◌%◌, ◌<◌, ◌≡◌, ◌≢◌, refl, sym, ◌∙◌, inl, inr, false, true, some, arith, Bool-cases,
  Option-cases, update, Bool, if◌then◌else◌,
}
use mathlib.Core.Path.{fun_ext}
use ox.Fs.Dev.{Sector, Ata, IsDisk}
use ox.Fs.Block.{
  Slot, Store, BlockRtvl, block_ok, array_size, block_free_mark, clamp_curr, search, used_again,
  differ,
}
use ox.Fs.Block.Search.{search-some, search-none}
use ox.Fs.Block.Contents.{IsValid, IsCoherent, contents_cached, if_same}
use ox.Fs.Block.Install.{MayHold, update-IsValid, update-IsCoherent, contents-update}
use ox.Fs.Block.Flush.{put_disk, block_disk_write, refreshed, sync_step}
use ox.Fs.Block.Flush.Step.{
  put_disk-ok, flushed, flushed_holds, flushed-IsCoherent, contents-flushed,
}
use ox.Fs.Block.Flush.Free.{Kept}

refreshed_self : (e : Slot) → refreshed e e.bytes ≡ e
refreshed_self e = elim (Bool-cases (differ e.bytes e.bytes)) [ inl c ↦ rw c | inr c ↦ rw c ]

same_either : (b : Bool) (x : Sector) → (if b then x else x) ≡ x
same_either true x = refl
same_either false x = refl

update_self : (slot : ℕ → Slot) (i : ℕ) → update slot i (slot i) ≡ slot
update_self slot i = fun_ext (λ j. ground arith)

module _ {D : Type 0} (ata : Ata D) (disk : IsDisk ata)
    (writes : (d : D) (drive lba : ℕ) (buf : Sector) → (ata.write d drive lba buf).0 ≡ 0) where
  block_disk_write_hit :
      (s : Store D) (dev block : ℕ) (bytes : Sector) (i : ℕ)
      → search (clamp_curr s.curr) s.slot dev block ≡ some i
      → block_disk_write ata s dev block bytes
        ≡ put_disk ata
            (record s {
              curr = clamp_curr s.curr;
              slot = update s.slot i (refreshed (s.slot i) bytes);
            })
            dev
            block
            (refreshed (s.slot i) bytes).bytes
  unfolding block_disk_write
  block_disk_write_hit s dev block bytes i e = rw (e, block_disk_write)

  -- The state after slot i was written to its sector.
  abbrev pub written : Store D → ℕ → Store D
  written s i = record s {
    curr = clamp_curr s.curr;
    disk = (ata.write s.disk ((s.slot i).dev % 256) (s.slot i).block (s.slot i).bytes).1;
  }

  pub write_slot :
      (s : Store D) (i : ℕ)
      → IsValid s.slot
      → i < array_size
      → (s.slot i).block ≢ block_free_mark
      → block_disk_write ata s (s.slot i).dev (s.slot i).block (s.slot i).bytes
        ≡ (block_ok, written s i)
  write_slot s i valid h used =
      let curr = clamp_curr s.curr in
      let inside : curr < array_size = ground arith in
      elim (Option-cases (search curr s.slot (s.slot i).dev (s.slot i).block)) [
        | inl e ↦
            absurd
              (ground (arith, search-none s.slot (s.slot i).dev (s.slot i).block curr i inside e h))
        | inr (j, e) ↦
            let f = search-some s.slot (s.slot i).dev (s.slot i).block curr j inside e in
            let here : j ≡ i = ground (arith, valid.unique i j h f.0 used) in
            rw
              (
                block_disk_write_hit s _ _ _ i (rw here at e),
                refreshed_self (s.slot i),
                update_self s.slot i,
                same_either (differ (s.slot i).bytes (s.slot i).bytes) (s.slot i).bytes,
              )
              (put_disk-ok ata disk (record s { curr = curr }) (s.slot i).dev (s.slot i).block
                (s.slot i).bytes (writes _ _ _ _))
      ]

  -- What the loop of block_sync has done up to slot n.
  pub record Synced (dev : ℕ) (s : Store D) (n : ℕ) (r : BlockRtvl × Store D) : Type 0 where
    pub ok : r.0 ≡ block_ok
    pub kept : Kept ata s r.1
    pub clean : (i : ℕ) → i < n → (r.1.slot i).dev ≡ dev → (r.1.slot i).dirty ≡ false

  -- The slot that a round leaves.
  abbrev pub cleaned : Slot → Slot
  cleaned e = used_again (record e { dirty = false })

  pub sync_step_writes :
      (dev i : ℕ) (rc : BlockRtvl) (s : Store D)
      → IsValid s.slot
      → i < array_size
      → (s.slot i).dirty ≡ true
      → (s.slot i).dev ≡ dev
      → sync_step ata dev i (rc, s)
        ≡ (rc, record (written s i) { slot = update s.slot i (cleaned (s.slot i)) })
  unfolding sync_step
  sync_step_writes dev i rc s valid h dirty own =
      let w = write_slot s i valid h (valid.free_clean i h dirty) in ground arith

  module _ (s : Store D) (i : ℕ) (valid : IsValid s.slot) (coherent : IsCoherent ata s.slot s.disk)
      (h : i < array_size) (dirty : (s.slot i).dirty ≡ true) where
    -- A round on a dirty slot of the device.
    pub cleaned-Kept :
        Kept ata s (record (written s i) { slot = update s.slot i (cleaned (s.slot i)) })
    cleaned-Kept = record {
      valid = update-IsValid ata s.slot d i e valid still may used small (λ c. holds);
      coherent = update-IsCoherent ata s.slot d i e valid still may used small (λ c. holds);
      same = λ dev block used' small'.
          contents-update ata s.slot d i e valid still may used small (λ c. holds) dev block used'
          ∙ if_same ata s.slot d e.dev e.block dev block e.bytes
              (sym (contents_cached ata s.slot d e.dev e.block i valid used h (ground arith)))
          ∙ contents-flushed ata disk s.slot s.disk i valid coherent h used (writes _ _ _ _) dev
              block used' small';
    }
      where
        e : Slot
        e = cleaned (s.slot i)

        used : (s.slot i).block ≢ block_free_mark
        used = valid.free_clean i h dirty

        small : (s.slot i).dev < 256
        small = valid.devices i h used

        d : D
        d = flushed ata disk s.slot s.disk i valid coherent h used (writes _ _ _ _)

        holds : (s.slot i).bytes ≡ ata.sector d ((s.slot i).dev % 256) (s.slot i).block
        holds = flushed_holds ata disk s.slot s.disk i valid coherent h used (writes _ _ _ _)

        still : IsCoherent ata s.slot d
        still = flushed-IsCoherent ata disk s.slot s.disk i valid coherent h used (writes _ _ _ _)

        may : MayHold s.slot i (s.slot i).dev (s.slot i).block
        may = record {
          inside = h;
          replaceable = ground arith;
          others = λ j hj nj. ground (arith, valid.unique i j h hj used);
        }

  pub Kept-trans : (s t u : Store D) → Kept ata s t → Kept ata t u → Kept ata s u
  Kept-trans s t u k l = record {
    valid = l.valid;
    coherent = l.coherent;
    same = λ dev block used small. l.same dev block used small ∙ k.same dev block used small;
  }
