-- ===== src/Fs/Block/Flush.antt =====
-- The calls of fs/block.c that open the cache, write it out and close it.
pub mod Step
pub mod Free
pub mod Sync
pub mod Durable
pub mod Open
mod Tests
use ox.Base.{
  ℕ, zero, suc, ◌-◌, Bool, true, false, ◌&&◌, ◌||◌, not, Option, none, some, ◌==◌, if◌then◌else◌,
  is_negative, update,
}
use ox.Fs.Dev.{
  Sector, DevRtvl, dev_ok, dev_fail, dev_param, dev_nodev, Ata, dev_open, dev_write, dev_scan,
  dev_close,
}
use ox.Fs.Block.{
  Slot, Store, BlockRtvl, block_ok, block_fail, block_param, array_size, block_free_mark,
  clamp_curr, find_slot, search, used_again, differ, block_read,
}

-- The slot that block_open and block_free leave; block_open fills the buffer with `zeroes`.
abbrev pub free_slot : Sector → Slot
free_slot bytes = record {
  lru = 0;
  block = block_free_mark;
  dev = dev_nodev;
  dirty = false;
  bytes = bytes;
}

-- The loop of block_open over the arrays, with the rounds left.
pub init_loop : ℕ → ℕ → Sector → (ℕ → Slot) → ℕ → Slot
init_loop zero i zeroes slot = slot
init_loop (suc n) i zeroes slot = init_loop n (suc i) zeroes (update slot i (free_slot zeroes))

-- The buffer after `if(memcmp(...) != 0) memcpy(...)`.
abbrev pub refreshed : Slot → Sector → Slot
refreshed e bytes = record e { bytes = if differ e.bytes bytes then bytes else e.bytes }

module _ {D : Type 0} where
  -- Only the flag is reset: the next block_open empties the arrays.
  pub block_reinit : Store D → Store D
  block_reinit s = record s { init = false }

  module _ (ata : Ata D) where
    -- `path` and `dev` say whether the pointers are given; the number is `*dev` at the call.
    pub block_open : Store D → Sector → Bool → Bool → ℕ → BlockRtvl × ℕ × Store D
    unfolding init_loop
    block_open s zeroes path dev old =
        if not path || not dev
        then (block_param, old, s)
        else (let t =
              if s.init
              then s
              else record s { init = true; slot = init_loop array_size 0 zeroes s.slot } in
            let (rc, dev') = dev_open ata old in
            elim rc [ dev_ok ↦ (block_ok, dev', t) | _ ↦ (block_fail, dev', t) ])

    -- `dev_scan` and `dev_write`.
    unfoldable pub put_disk : Store D → ℕ → ℕ → Sector → BlockRtvl × Store D
    put_disk s dev block bytes = elim (dev_scan ata s.disk dev block) [
      | dev_ok ↦
          let (rc, d) = dev_write ata s.disk dev block bytes in
          (elim rc [ dev_ok ↦ block_ok | _ ↦ block_fail ], record s { disk = d })
      | _ ↦ (block_fail, s)
    ]

    pub block_free : Store D → ℕ → ℕ → BlockRtvl × Store D
    block_free s dev block =
        if is_negative dev
        then (block_param, s)
        else elim (find_slot array_size 0 s.slot dev block) [
          | none ↦ (block_ok, s)
          | some i ↦
              let (rc, t) =
                if (s.slot i).dirty then put_disk s dev block (s.slot i).bytes else (block_ok, s) in
              elim rc [
                | block_ok ↦ (
                  block_ok,
                  record t { curr = i; slot = update t.slot i (free_slot (t.slot i).bytes) },
                )
                | _ ↦ (block_fail, t)
              ]
        ]

    unfoldable pub block_disk_write : Store D → ℕ → ℕ → Sector → BlockRtvl × Store D
    unfolding differ
    block_disk_write s dev block bytes =
        let curr = clamp_curr s.curr in
        let t = record s { curr = curr } in
        elim (search curr s.slot dev block) [
          | some i ↦
              let e = refreshed (s.slot i) bytes in
              put_disk (record t { slot = update s.slot i e }) dev block e.bytes
          | none ↦ put_disk t dev block bytes
        ]

    -- As block_disk_write, with a block_read where the block was not cached.
    pub block_disk_write_sync_cache : Store D → ℕ → ℕ → Sector → BlockRtvl × Sector × Store D
    unfolding differ
    block_disk_write_sync_cache s dev block bytes =
        let curr = clamp_curr s.curr in
        let t = record s { curr = curr } in
        elim (search curr s.slot dev block) [
          | some i ↦
              let e = refreshed (s.slot i) bytes in
              let (rc, u) = put_disk (record t { slot = update s.slot i e }) dev block e.bytes in
              (rc, bytes, u)
          | none ↦
              let (rc, u) = put_disk t dev block bytes in
              elim rc [ block_ok ↦ block_read ata u dev block bytes | _ ↦ (block_fail, bytes, u) ]
        ]

    -- One round of the loop of block_sync.
    unfoldable pub sync_step : ℕ → ℕ → BlockRtvl × Store D → BlockRtvl × Store D
    sync_step dev i (rtvl, s) =
        if (s.slot i).dirty && ((s.slot i).dev == dev)
        then (let (rc, t) = block_disk_write s dev (s.slot i).block (s.slot i).bytes in
            elim rc [
              | block_fail ↦ (block_fail, t)
              | _ ↦ (
                rtvl,
                record t {
                  slot = update t.slot i (used_again (record (t.slot i) { dirty = false }));
                },
              )
            ])
        else (rtvl, s)

    unfoldable pub sync_loop : ℕ → ℕ → ℕ → BlockRtvl × Store D → BlockRtvl × Store D
    sync_loop dev zero i r = r
    sync_loop dev (suc n) i r = sync_loop dev n (suc i) (sync_step dev i r)

    unfoldable pub block_sync : Store D → ℕ → BlockRtvl × Store D
    block_sync s dev = sync_loop dev array_size 0 (block_ok, s)

    -- `none` is the end of the function with no `return`.
    unfoldable pub block_close : Store D → ℕ → Option BlockRtvl × Store D
    block_close s dev =
        let (rc, t) = block_sync s dev in
        let synced : Bool = elim rc [ block_ok ↦ true | _ ↦ false ] in
        let closed : Bool = elim (dev_close dev) [ dev_ok ↦ true | _ ↦ false ] in
        (if synced && closed then none else some block_fail, t)
