-- ===== src/Fs/Inode/Map.antt =====
-- inode_get_data_block, inode_get_inode_block, inode_free_data_block and inode_free_inode_block of
-- fs/inode.c. The functions of a pair differ only in the map that they use, so each pair is one
-- function of the kind of map. A pointer to a map of which one block at a time is in memory is a
-- Cursor.
pub mod Bound
pub mod Take
pub mod Free
pub mod Fit
pub mod Cycle
mod Tests
use ox.Base.{
  ℕ, zero, suc, ◌+◌, ◌*◌, ◌/◌, ◌%◌, ◌^◌, Bool, true, false, ◌&&◌, ◌==◌, Option, none, some,
  if◌then◌else◌, ltb, inc32, sub32,
}
use ox.Fs.Bitmap.{bit_get, bit_set}
use ox.Fs.Inode.{
  InodeRtvl, inode_ok, inode_fail, inode_null, inode_nopos, inode_nr_pass, block_size, eacces,
}
use ox.Fs.Inode.Master.{
  Zone, Kind, inode_kind, data_kind, Master, Volumes, zone_of, set_zone, set_memory, set_master,
  master_get,
}
use ox.Fs.Inode.Device.{BlockIo, Layout}

pub record Cursor (C : Type 0) : Type 0 where
  pub ptr : ℕ
  pub bit : ℕ
  pub pass : ℕ
  pub vol : Volumes C

-- The number of the block of a bit, `block_calculation`.
abbrev pub block_of : Zone → ℕ → ℕ → ℕ
block_of z ptr bit = (z.start + sub32 ptr z.map_start * block_size + bit) % 2 ^ 32

abbrev pub zone : {C : Type 0} → Kind → ℕ → Volumes C → Zone
zone k i v = zone_of k (v.tab i)

abbrev pub put_zone : {C : Type 0} → Kind → ℕ → Volumes C → Zone → Volumes C
put_zone k i v z = set_master v i (set_zone k z (v.tab i))

module _ {C : Type 0} (io : BlockIo C) where
  module _ (k : Kind) (i dev : ℕ) where
    -- `block_read(dev, block, master->bmap)`, with errno.
    abbrev pub load : Volumes C → ℕ → Bool × Volumes C
    load v block =
        let (ok, bytes, c) = io.read v.cache dev block (v.memory k i) in
        let w = record (set_memory v k i bytes) { cache = c } in
        (ok, if ok then w else record w { errno = eacces })

    -- `block_write`, with errno.
    abbrev pub store : Volumes C → ℕ → (ℕ → ℕ) → Bool × Volumes C
    store v block bytes =
        let (ok, c) = io.write v.cache dev block bytes in
        let w = record v { cache = c } in (ok, if ok then w else record w { errno = eacces })

    -- The start of all four functions: a map with no block in memory gets its first one.
    pub begin : Volumes C → Bool × Cursor C
    begin v =
        let z = zone k i v in
        if z.ptr == 0
        then (let (ok, w) = load (put_zone k i v (record z { ptr = z.map_start })) z.map_start in
            (ok, record { ptr = z.map_start; bit = 0; pass = 0; vol = w }))
        else (true, record { ptr = z.ptr; bit = z.bit; pass = 0; vol = v })

    -- The next bit, of the next block after the last one and of the first block after the last block.
    pub advance : Cursor C → Bool × Cursor C
    advance c =
        let z = zone k i c.vol in
        let bit = (c.bit + 1) % block_size in
        let v = put_zone k i c.vol (record z { bit = bit }) in
        if bit == 0
        then (let later = ltb (inc32 c.ptr) z.map_end in
            let ptr = if later then inc32 c.ptr else z.map_start in
            let (ok, w) = load (put_zone k i v (record z { ptr = ptr; bit = bit })) ptr in
            (
              ok,
              record {
                ptr = ptr;
                bit = bit;
                pass = if later then c.pass else if ok then c.pass + 1 else c.pass;
                vol = w;
              },
            ))
        else (true, record c { bit = bit; vol = v })

    -- The block of the map with the bit of a block, in memory.
    pub seek : Volumes C → ℕ → Bool × Cursor C
    seek v block =
        let z = zone k i v in
        let at = sub32 block z.start in
        let ptr = (at / block_size + z.map_start) % 2 ^ 32 in
        let bit = at % block_size in
        let w = put_zone k i v (record z { ptr = ptr; bit = bit }) in
        if ptr == z.ptr
        then (true, record { ptr = ptr; bit = bit; pass = 0; vol = w })
        else (let (ok, w') = load w ptr in
            (ok, record { ptr = ptr; bit = bit; pass = 0; vol = w' }))

    pub free_at : Volumes C → ℕ → InodeRtvl × Volumes C
    free_at v block =
        let (ok, c) = begin v in
        let (ok', d) = seek c.vol block in
        if ok
        then (if ok'
            then (if bit_get (d.vol.memory k i) d.bit == 0
                then (inode_ok, d.vol)
                else (inode_ok, set_memory d.vol k i (bit_set (d.vol.memory k i) d.bit 0)))
            else (inode_fail, d.vol))
        else (inode_fail, c.vol)

  pub free_block : Kind → Volumes C → ℕ → ℕ → InodeRtvl × Volumes C
  free_block k v dev block = elim (master_get v dev) [
    | some i ↦ free_at k i dev v block
    | none ↦ (inode_fail, v)
  ]

  abbrev pub inode_free_data_block : Volumes C → ℕ → ℕ → InodeRtvl × Volumes C
  inode_free_data_block = free_block data_kind

  abbrev pub inode_free_inode_block : Volumes C → ℕ → ℕ → InodeRtvl × Volumes C
  inode_free_inode_block = free_block inode_kind

  module _ (layout : Layout) where
    module _ (k : Kind) (i dev : ℕ) where
      -- A clear bit was found: the bit, the master inode and the map's block.
      pub take : Cursor C → InodeRtvl × ℕ × Volumes C
      take c =
          let z = zone k i c.vol in
          let v = set_memory c.vol k i (bit_set (c.vol.memory k i) c.bit 1) in
          let w = put_zone k i v (record z { bit = c.bit }) in
          let (wrote, w') = store k i dev w (w.tab i).block_start (layout.image (w.tab i)) in
          if wrote
          then (let (wrote', w'') = store k i dev w' c.ptr (w'.memory k i) in
              if wrote'
              then (inode_ok, block_of z c.ptr c.bit, w'')
              else (inode_fail, inode_nopos, w''))
          else (inode_fail, inode_nopos, w')

      -- The `do` loop; none is a loop that is cut off.
      pub get_loop : ℕ → Cursor C → Option (InodeRtvl × ℕ × Volumes C)
      get_loop zero c = none
      get_loop (suc n) c =
          if bit_get (c.vol.memory k i) c.bit == 0
          then some (take c)
          else (let (ok, d) = advance k i dev c in
              let rest = get_loop n d in
              if ok
              then (if ltb d.pass inode_nr_pass then rest else some (inode_fail, inode_null, d.vol))
              else some (inode_fail, inode_nopos, d.vol))

      pub get_at : ℕ → Volumes C → Option (InodeRtvl × ℕ × Volumes C)
      get_at n v =
          let z = zone k i v in
          let (ok, c) = begin k i dev v in
          if z.ptr == 0 && ((v.tab i).init_fs == 0)
          then some (inode_fail, inode_nopos, v)
          else if ok
          then get_loop n c
          else some (inode_fail, inode_nopos, c.vol)

    -- The result, `*block` and the new state. With a master inode `master_get_mem_ptr` cannot fail.
    pub get_block : Kind → ℕ → Volumes C → ℕ → ℕ → Option (InodeRtvl × ℕ × Volumes C)
    get_block k n v dev block = elim (master_get v dev) [
      | some i ↦ get_at k i dev n v
      | none ↦ some (inode_fail, block, v)
    ]

    abbrev pub inode_get_data_block : ℕ → Volumes C → ℕ → ℕ → Option (InodeRtvl × ℕ × Volumes C)
    inode_get_data_block = get_block data_kind

    abbrev pub inode_get_inode_block : ℕ → Volumes C → ℕ → ℕ → Option (InodeRtvl × ℕ × Volumes C)
    inode_get_inode_block = get_block inode_kind
