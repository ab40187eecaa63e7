-- ===== src/Fs/Block.antt =====
-- The buffer cache of fs/block.c. Entry i of its five static arrays is `slot i`; the disk is
-- part of the state. BLOCK_NOPOS, an index that no scan gives, is `none`.
pub mod Search
pub mod Contents
pub mod Install
pub mod Read
pub mod Write
pub mod Evict
pub mod ReadBack
pub mod Flush
use ox.Base.{
  ℕ, zero, suc, ◌+◌, ◌-◌, ◌^◌, Bool, true, false, not, ◌&&◌, Option, none, some, List, [], ◌∷◌,
  ◌==◌, if◌then◌else◌, ltb, leb, inc32, is_negative, update,
}
use ox.Fs.Dev.{
  Sector, DevRtvl, dev_ok, dev_fail, dev_param, dev_nodev, Ata, dev_open, dev_read, dev_write,
  dev_scan, dev_close,
}

-- BLOCK_ARRAY_SIZE, BLOCK_FREE as a `block_t`, BLOCK_MAX_LRU.
abbrev pub array_size : ℕ
array_size = 128

abbrev pub block_free_mark : ℕ
block_free_mark = 2 ^ 32 - 1

abbrev pub max_lru : ℕ
max_lru = 4294967295

-- `block_rtvl_t`.
pub data BlockRtvl : Type 0 where
  block_ok block_fail block_param : BlockRtvl

-- block_lru, block_map, block_dev, dirty and block_array at one index.
pub record Slot : Type 0 where
  pub lru : ℕ
  pub block : ℕ
  pub dev : ℕ
  pub dirty : Bool
  pub bytes : Sector

pub record Store (D : Type 0) : Type 0 where
  pub init : Bool
  pub curr : ℕ
  pub highest : ℕ
  pub slot : ℕ → Slot
  pub disk : D

abbrev pub matches : Slot → ℕ → ℕ → Bool
matches e dev block = (e.block == block) && (e.dev == dev)

-- `for(i = ...; ...; i++)` up to a match, with the rounds left.
unfoldable pub find_slot : ℕ → ℕ → (ℕ → Slot) → ℕ → ℕ → Option ℕ
find_slot zero i slot dev block = none
find_slot (suc n) i slot dev block =
    if matches (slot i) dev block then some i else find_slot n (suc i) slot dev block

abbrev pub clamp_curr : ℕ → ℕ
clamp_curr curr = if leb array_size curr then 0 else curr

-- The scan from `curr` to the end, then round from the start to `curr`.
unfoldable pub search : ℕ → (ℕ → Slot) → ℕ → ℕ → Option ℕ
search curr slot dev block = elim (find_slot (array_size - curr) curr slot dev block) [
  | some i ↦ some i
  | none ↦ if curr == 0 then none else find_slot curr 0 slot dev block
]

-- The variables of the replacement scan; `highest` is the static one.
pub record Scan : Type 0 where
  pub free : Option ℕ
  pub clean_lru : ℕ
  pub clean : Option ℕ
  pub dirty_lru : ℕ
  pub dirty : Option ℕ
  pub highest : ℕ

unfoldable pub visit : Slot → ℕ → Scan → Scan
visit e i a =
    if e.dirty
    then record a {
      dirty_lru = if ltb e.lru a.dirty_lru then e.lru else a.dirty_lru;
      dirty = if ltb e.lru a.dirty_lru then some i else a.dirty;
      highest = if ltb a.highest e.lru then e.lru else a.highest;
    }
    else record a {
      clean_lru = if ltb e.lru a.clean_lru then e.lru else a.clean_lru;
      clean = if ltb e.lru a.clean_lru then some i else a.clean;
      highest = if ltb a.highest e.lru then e.lru else a.highest;
    }

unfoldable pub scan_loop : ℕ → ℕ → (ℕ → Slot) → Scan → Scan
scan_loop zero i slot a = a
scan_loop (suc n) i slot a =
    if (slot i).block == block_free_mark
    then record a { free = some i }
    else scan_loop n (suc i) slot (visit (slot i) i a)

unfoldable pub scan : ℕ → (ℕ → Slot) → Scan
scan highest slot = scan_loop array_size 0 slot (record {
  free = none;
  clean_lru = max_lru;
  clean = none;
  dirty_lru = max_lru;
  dirty = none;
  highest = highest;
})

-- `if(block_lru[i] < BLOCK_MAX_LRU) ++block_lru[i];`
abbrev pub used_again : Slot → Slot
used_again e = record e { lru = if ltb e.lru max_lru then inc32 e.lru else e.lru }

-- `if(block_lru[i] < BLOCK_MAX_LRU) block_lru[i] = ++highest;`, for the slot and for `highest`.
abbrev pub fresh_lru : Slot → ℕ → ℕ
fresh_lru e highest = if ltb e.lru max_lru then inc32 highest else e.lru

abbrev pub fresh_highest : Slot → ℕ → ℕ
fresh_highest e highest = if ltb e.lru max_lru then inc32 highest else highest

-- `memcmp(a, b, DEV_BLOCK_SIZE) != 0`.
unfoldable pub differ : Sector → Sector → Bool
differ [] [] = false
differ [] (y ∷ ys) = true
differ (x ∷ xs) [] = true
differ (x ∷ xs) (y ∷ ys) = if x == y then differ xs ys else true

module _ {D : Type 0} where
  -- The slot after a block was put in it, with `curr` and `highest`.
  abbrev pub install : Store D → ℕ → ℕ → ℕ → Bool → Sector → Store D
  install s i dev block dirty bytes = record s {
    curr = i;
    highest = fresh_highest (s.slot i) s.highest;
    slot = update s.slot i (record {
      lru = fresh_lru (s.slot i) s.highest;
      block = block;
      dev = dev;
      dirty = dirty;
      bytes = bytes;
    });
  }

  -- A transfer that failed leaves what it did to the slot's buffer.
  abbrev pub spoil : Store D → ℕ → ℕ → Sector → Store D
  spoil s i block bytes = record s {
    slot = update s.slot i (record (s.slot i) { block = block; bytes = bytes });
  }

  module _ (ata : Ata D) where
    -- `dev_scan`, `dev_read` into slot i, and the slot's new owner. `old` is the owner that a failed
    -- read leaves: BLOCK_FREE on the path of a free slot, the block it had on the others.
    pub load_into : Store D → ℕ → ℕ → ℕ → ℕ → Sector → BlockRtvl × Sector × Store D
    load_into s i dev block old data' = elim (dev_scan ata s.disk dev block) [
      | dev_ok ↦
          let (rc, buf) = dev_read ata s.disk dev block (s.slot i).bytes in
          elim rc [
            | dev_ok ↦ (block_ok, buf, install s i dev block false buf)
            | _ ↦ (block_fail, data', spoil s i old buf)
          ]
      | _ ↦ (block_fail, data', s)
    ]

    -- Writes out the victim of the dirty path. The code passes the requested `block` here.
    pub write_victim : Store D → ℕ → ℕ → Bool × Store D
    write_victim s i block = elim (dev_scan ata s.disk (s.slot i).dev (s.slot i).block) [
      | dev_ok ↦
          let (rc, d) = dev_write ata s.disk (s.slot i).dev block (s.slot i).bytes in
          (elim rc [ dev_ok ↦ true | _ ↦ false ], record s { disk = d })
      | _ ↦ (false, s)
    ]

    -- The paths of block_read on a block that is not cached: a free slot, the clean slot with the
    -- least count, the dirty slot with the least count after it was written out.
    pub read_miss : Store D → ℕ → ℕ → Sector → BlockRtvl × Sector × Store D
    read_miss s dev block data' =
        let found = scan s.highest s.slot in
        let u = record s { highest = found.highest } in
        elim found.free [
          | some i ↦ load_into u i dev block block_free_mark data'
          | none ↦ elim found.clean [
            | some i ↦ load_into u i dev block (s.slot i).block data'
            | none ↦ elim found.dirty [
              | some i ↦
                  let (wrote, v) = write_victim u i block in
                  if wrote
                  then load_into v i dev block (s.slot i).block data'
                  else (block_fail, data', v)
              | none ↦ (block_fail, data', u)
            ]
          ]
        ]

    pub block_read : Store D → ℕ → ℕ → Sector → BlockRtvl × Sector × Store D
    block_read s dev block data' =
        if is_negative dev
        then (block_param, data', s)
        else (let curr = clamp_curr s.curr in
            elim (search curr s.slot dev block) [
              | some i ↦ (
                block_ok,
                (s.slot i).bytes,
                record s { curr = i; slot = update s.slot i (used_again (s.slot i)) },
              )
              | none ↦ read_miss (record s { curr = curr }) dev block data'
            ])

    -- The same paths of block_write: no read, and the new owner is dirty.
    unfoldable pub write_miss : Store D → ℕ → ℕ → Sector → BlockRtvl × Store D
    write_miss s dev block data' =
        let found = scan s.highest s.slot in
        let u = record s { highest = found.highest } in
        elim found.free [
          | some i ↦ (block_ok, install u i dev block true data')
          | none ↦ elim found.clean [
            | some i ↦ (block_ok, install u i dev block true data')
            | none ↦ elim found.dirty [
              | some i ↦
                  let (wrote, v) = write_victim u i block in
                  if wrote then (block_ok, install v i dev block true data') else (block_fail, v)
              | none ↦ (block_fail, u)
            ]
          ]
        ]

    unfoldable pub block_write : Store D → ℕ → ℕ → Sector → BlockRtvl × Store D
    block_write s dev block data' =
        let curr = clamp_curr s.curr in
        elim (search curr s.slot dev block) [
          | some i ↦ (
            block_ok,
            record s {
              curr = i;
              slot = update s.slot i (record (s.slot i) {
                lru = (used_again (s.slot i)).lru;
                dirty = true;
                bytes = data';
              });
            },
          )
          | none ↦ write_miss (record s { curr = curr }) dev block data'
        ]
