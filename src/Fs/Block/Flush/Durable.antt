-- ===== src/Fs/Block/Flush/Durable.antt =====
-- block_sync of fs/block.c, over all slots.
use ox.Base.{
  ℕ, zero, suc, ◌+◌, ◌%◌, ◌<◌, ◌≡◌, ◌≢◌, refl, sym, ◌∙◌, inl, inr, false, true, arith, Bool-cases,
  ◌==◌, ◌&&◌,
}
use ox.Fs.Dev.{Sector, Ata, IsDisk}
use ox.Fs.Block.{Store, BlockRtvl, block_ok, array_size, block_free_mark}
use ox.Fs.Block.Contents.{IsValid, IsCoherent, locate, contents, contents_cached, contents_absent}
use ox.Fs.Block.Flush.{sync_step, sync_loop, block_sync}
use ox.Fs.Block.Flush.Free.{Kept}
use ox.Fs.Block.Flush.Sync.{Synced, sync_step_writes, cleaned-Kept, Kept-trans}

module _ {D : Type 0} (ata : Ata D) (disk : IsDisk ata)
    (writes : (d : D) (drive lba : ℕ) (buf : Sector) → (ata.write d drive lba buf).0 ≡ 0) (dev : ℕ)
    (s : Store D) where
  sync_step_skips :
      (i : ℕ) (rc : BlockRtvl) (t : Store D)
      → ((t.slot i).dirty && ((t.slot i).dev == dev)) ≡ false
      → sync_step ata dev i (rc, t) ≡ (rc, t)
  unfolding sync_step
  sync_step_skips i rc t e = rw (e, sync_step)

  step-Synced :
      (n : ℕ) (r : BlockRtvl × Store D)
      → n < array_size
      → Synced ata disk writes dev s n r
      → Synced ata disk writes dev s (suc n) (sync_step ata dev n r)
  step-Synced n (rc, t) h y = elim (Bool-cases ((t.slot n).dirty && ((t.slot n).dev == dev))) [
    | inr skip ↦ rw (sync_step_skips n rc t skip) (record {
      ok = y.ok;
      kept = y.kept;
      clean = λ i hi ed. elim (Bool-cases (i == n)) [
        | inl here ↦ let e : i ≡ n = ground arith in ground arith
        | inr other ↦ y.clean i (ground arith) ed
      ];
    })
    | inl go ↦
        let dirty : (t.slot n).dirty ≡ true = ground arith in
        let own : (t.slot n).dev ≡ dev = ground arith in
        rw (sync_step_writes ata disk writes dev n rc t y.kept.valid h dirty own) (record {
          ok = y.ok;
          kept =
              Kept-trans ata disk writes s t _ y.kept
                (cleaned-Kept ata disk writes t n y.kept.valid y.kept.coherent h dirty);
          clean = λ i hi ed. ground (arith, y.clean i);
        })
  ]

  sync_loop-Synced :
      (n i : ℕ) (r : BlockRtvl × Store D)
      → i + n ≡ array_size
      → Synced ata disk writes dev s i r
      → Synced ata disk writes dev s array_size (sync_loop ata dev n i r)
  unfolding sync_loop
  sync_loop-Synced zero i r e y = let e' : i ≡ array_size = omega arith in rw (← e') y
  sync_loop-Synced (suc n) i r e y =
      sync_loop-Synced n (suc i) (sync_step ata dev i r) (omega arith)
        (step-Synced i r (omega arith) y)

  block_sync-Synced :
      IsValid s.slot
      → IsCoherent ata s.slot s.disk
      → Synced ata disk writes dev s array_size (block_sync ata s dev)
  unfolding block_sync
  block_sync-Synced valid coherent = sync_loop-Synced array_size 0 _ refl (record {
    ok = refl;
    kept = record { valid = valid; coherent = coherent; same = λ _ _ _ _. refl };
    clean = λ i h e. absurd (omega arith);
  })

  -- block_sync of a device below 256, on a valid and coherent cache over a disk that keeps what
  -- is written and whose writes to the device succeed: it succeeds, what every block holds and
  -- the validity and coherence of the cache are kept, and the disk itself then holds, for every
  -- used block number of the device, what the cache and the disk held for it before.
  pub block_sync-durable :
      IsValid s.slot
      → IsCoherent ata s.slot s.disk
      → dev < 256
      → let s' = (block_sync ata s dev).1 in
        ((block_sync ata s dev).0 ≡ block_ok)
        × Kept ata s s'
        × ((block : ℕ)
            → block ≢ block_free_mark
            → ata.sector s'.disk (dev % 256) block ≡ contents ata s.slot s.disk dev block)
  block_sync-durable valid coherent small =
      let y = block_sync-Synced valid coherent in
      (y.ok, y.kept, λ block used. on_disk block used ∙ y.kept.same dev block used small)
    where
      s' : Store D
      s' = (block_sync ata s dev).1

      y' : Synced ata disk writes dev s array_size (block_sync ata s dev)
      y' = block_sync-Synced valid coherent

      on_disk :
          (block : ℕ)
          → block ≢ block_free_mark
          → ata.sector s'.disk (dev % 256) block ≡ contents ata s'.slot s'.disk dev block
      on_disk block used = elim (locate s'.slot dev block) [
        | inr gone ↦ sym (contents_absent ata s'.slot s'.disk dev block gone)
        | inl (i, h, m) ↦
            let own : (s'.slot i).dev ≡ dev = ground arith in
            let same : (s'.slot i).block ≡ block = ground arith in
            sym (
              contents_cached ata s'.slot s'.disk dev block i y'.kept.valid used h m
              ∙ ground (arith, y'.kept.coherent i h, y'.clean i h own))
      ]
