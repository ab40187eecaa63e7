-- ===== src/Fs/Block/Flush/Tests.antt =====
-- The cache of fs/block.c over a small disk: runs, and the theorems at concrete inputs.
use ox.Base.{
  ℕ, ◌%◌, ◌<◌, ◌≡◌, ◌≢◌, refl, inl, inr, false, true, [], ◌∷◌, arith, ◌==◌, ◌&&◌, if◌then◌else◌,
}
use ox.Fs.Dev.{Sector, Ata, IsDisk, dev_read, dev_write, dev_scan}
use ox.Fs.Block.{
  Store, block_ok, array_size, block_free_mark, block_read, block_write, read_miss, find_slot,
  search, scan, scan_loop, visit, load_into, write_victim, write_miss, differ,
}
use ox.Fs.Block.Flush.{
  free_slot, block_open, block_free, block_sync, sync_loop, sync_step, block_disk_write, put_disk,
}
use ox.Fs.Block.Contents.{IsValid, IsCoherent, IsAbsent, contents}
use ox.Fs.Block.Read.{SameContents, block_read-Reads}
use ox.Fs.Block.Write.{Updated, block_write-Writes}
use ox.Fs.Block.ReadBack.{block_write-block_read}
use ox.Fs.Block.Evict.{IsFull, block_read_full}
use ox.Fs.Block.Flush.Free.{Kept, block_free-Freed}
use ox.Fs.Block.Flush.Durable.{block_sync-durable}
use ox.Fs.Block.Flush.Open.{block_open-contents}

abbrev Disk : Type 0
Disk = ℕ → ℕ → Sector

abbrev poke : Disk → ℕ → ℕ → Sector → Disk
poke d drive lba buf drive' lba' = if (drive' == drive) && (lba' == lba) then buf else d drive' lba'

-- A disk on which every transfer succeeds.
abbrev ram : Ata Disk
ram = record {
  nr_drives = 1;
  sector = λ d drive lba. d drive lba;
  read = λ d drive lba buf. (0, d drive lba);
  write = λ d drive lba buf. (0, poke d drive lba buf);
}

ram-IsDisk : IsDisk ram
ram-IsDisk = record {
  read_sector = λ d drive lba buf e. refl;
  write_sector = λ d drive lba buf e. ground arith;
  write_other = λ d drive lba buf drive' lba' ne. ground arith;
}

abbrev platter : Disk
platter drive lba = lba ∷ []

-- An empty cache, and one with block 7 cached and changed at slot 0.
abbrev empty : Store Disk
empty = record { init = true; curr = 0; highest = 0; slot = λ i. free_slot []; disk = platter }

abbrev changed : Store Disk
changed = record empty {
  slot = λ i.
      if i == 0
      then record { lru = 1; block = 7; dev = 0; dirty = true; bytes = 9 ∷ [] }
      else free_slot [];
}

-- Slot i holds the dirty block i.
abbrev crowded : Store Disk
crowded = record empty {
  slot = λ i. record { lru = i; block = i; dev = 0; dirty = true; bytes = 5 ∷ i ∷ [] };
}

read_misses : (block_read ram empty 0 3 []).1 ≡ 3 ∷ []
unfolding block_read read_miss find_slot search scan scan_loop load_into dev_read dev_scan
read_misses = refl

read_hits : (block_read ram changed 0 7 []).1 ≡ 9 ∷ []
unfolding block_read find_slot search
read_hits = refl

sync_writes : (block_sync ram changed 0).1.disk 0 7 ≡ 9 ∷ []
unfolding block_sync sync_loop sync_step block_disk_write find_slot search put_disk dev_write
    dev_scan differ
sync_writes = refl

empty-IsValid : IsValid empty.slot
empty-IsValid = record {
  unique = λ i j hi hj ui eb ed. absurd (ui refl);
  devices = λ i hi ui. absurd (ui refl);
  free_clean = λ i hi di. absurd (ground arith);
}

empty-IsCoherent : IsCoherent ram empty.slot empty.disk
empty-IsCoherent i h u c = absurd (u refl)

changed-IsValid : IsValid changed.slot
changed-IsValid = record {
  unique = λ i j hi hj ui eb ed. ground arith;
  devices = λ i hi ui. ground arith;
  free_clean = λ i hi di. ground arith;
}

changed-IsCoherent : IsCoherent ram changed.slot changed.disk
changed-IsCoherent i h u c = ground arith

crowded-IsFull : IsFull crowded.slot 0
crowded-IsFull = record {
  used = λ i h e. ground arith;
  dirty = λ i h. refl;
  counts = λ i h. omega arith;
  devices = λ i h. refl;
}

block_read-Reads_example :
    let r = block_read ram empty 0 3 [] in
    (r.0 ≡ block_ok) × (r.1 ≡ contents ram empty.slot empty.disk 0 3) × SameContents ram empty r.2
block_read-Reads_example =
    block_read-Reads ram empty 0 3 [] ram-IsDisk empty-IsValid empty-IsCoherent (omega arith)
      (omega arith) (λ buf. refl) (inr (0, omega arith, inl refl))

block_write-Writes_example :
    let r = block_write ram changed 0 3 (1 ∷ []) in
    (r.0 ≡ block_ok) × Updated ram changed 0 3 (1 ∷ []) r.1
block_write-Writes_example =
    block_write-Writes ram changed 0 3 (1 ∷ []) changed-IsValid changed-IsCoherent (omega arith)
      (omega arith) (inr (1, omega arith, inl refl))

block_write-block_read_example :
    let s' = (block_write ram crowded 0 500 (1 ∷ [])).1 in
    ((block_read ram s' 0 500 []).0 ≡ block_ok) × ((block_read ram s' 0 500 []).1 ≡ 1 ∷ [])
unfolding block_write write_miss find_slot search scan scan_loop visit write_victim dev_write
    dev_scan
block_write-block_read_example = block_write-block_read ram crowded 0 500 (1 ∷ []) [] refl refl

block_read_full_example :
    (i : ℕ) × (i < array_size)
    × (((block_read ram crowded 0 500 []).0 ≡ block_ok)
        × ((block_read ram crowded 0 500 []).1 ≡ 5 ∷ i ∷ [])
        × ((block_read ram crowded 0 500 []).2.disk 0 500 ≡ 5 ∷ i ∷ [])
        × ((block_read ram crowded 0 500 []).2.disk 0 i ≡ i ∷ []))
block_read_full_example =
    block_read_full ram ram-IsDisk crowded 0 500 [] crowded-IsFull (omega arith)
      (λ j h. omega arith) (λ buf. refl) (λ d buf. refl)

block_free-Freed_example :
    let r = block_free ram changed 0 7 in
    (r.0 ≡ block_ok) × Kept ram changed r.1 × IsAbsent r.1.slot 0 7
block_free-Freed_example =
    block_free-Freed ram ram-IsDisk changed changed-IsValid changed-IsCoherent 0 7 (omega arith)
      (omega arith) (λ buf. refl)

block_sync-durable_example :
    let s' = (block_sync ram changed 0).1 in
    ((block_sync ram changed 0).0 ≡ block_ok)
    × Kept ram changed s'
    × ((block : ℕ)
        → block ≢ block_free_mark
        → s'.disk 0 block ≡ contents ram changed.slot changed.disk 0 block)
block_sync-durable_example =
    block_sync-durable ram ram-IsDisk (λ d drive lba buf. refl) 0 changed changed-IsValid
      changed-IsCoherent (omega arith)

block_open-contents_example :
    let r = block_open ram (record changed { init = false }) (0 ∷ []) true true 0 in
    (r.0 ≡ block_ok)
    × IsValid r.2.slot
    × IsCoherent ram r.2.slot r.2.disk
    × ((dev block : ℕ)
        → block ≢ block_free_mark
        → contents ram r.2.slot r.2.disk dev block ≡ platter (dev % 256) block)
block_open-contents_example =
    block_open-contents ram (record changed { init = false }) (0 ∷ []) 0 refl
