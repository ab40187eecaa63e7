-- ===== src/Fs/Inode/Map/Free.antt =====
-- inode_free_data_block and inode_free_inode_block of fs/inode.c on a block just handed out.
use ox.Base.{ℕ, ◌+◌, ◌-◌, ◌*◌, ◌^◌, ◌/◌, ◌%◌, ◌<◌, ◌≤◌, ◌≡◌, refl, true, false, ◌==◌, sub32, arith}
use ox.Fs.Bitmap.{bit_get, bit_set, bit_get-bit_set}
use ox.Fs.Inode.{inode_ok, block_size}
use ox.Fs.Inode.Master.{Zone, Kind, Volumes, set_memory}
use ox.Fs.Inode.Device.{BlockIo, IsBlockIo, Layout}
use ox.Fs.Inode.Map.{Cursor, zone, put_zone, block_of, begin, seek, free_at}
use ox.Fs.Inode.Map.Bound.{IsMap, IsReady}
use ox.Fs.Inode.Map.Take.{Taken}

-- The numbers of the blocks of a map stay below 2^32.
abbrev pub IsNumbered : Zone → Type 0
IsNumbered z = z.start + block_size * (z.map_end - z.map_start) ≤ 2 ^ 32

module _ (z : Zone) (is : IsMap z) (numbered : IsNumbered z) (ptr bit : ℕ) where
  pub block_of_lem :
      z.map_start ≤ ptr
      → ptr < z.map_end
      → bit < block_size
      → block_of z ptr bit ≡ z.start + block_size * (ptr - z.map_start) + bit
  block_of_lem lo hi small = ground (arith, is.last)

module _ {C : Type 0} (io : BlockIo C) (law : IsBlockIo io) (k : Kind) (i dev : ℕ) (layout : Layout)
    (v : Volumes C) (c : Cursor C) (b : ℕ) (w : Volumes C) (ready : IsReady k i v)
    (numbered : IsNumbered (zone k i v)) (taken : Taken io law k i dev layout v c b w) where
  pub zone-taken :
      let z = zone k i v in
      let y = zone k i w in
      (y.map_start ≡ z.map_start)
      × (y.map_end ≡ z.map_end)
      × (y.start ≡ z.start)
      × (y.ptr ≡ c.ptr)
      × (y.bit ≡ c.bit)
  zone-taken =
      let s = taken.stands in
      ground (arith, taken.zone_after, s.map_start, s.map_end, s.start, s.ptr)

  -- The code finds the bit again from the number.
  pub locate :
      let z = zone k i w in
      let at = sub32 b z.start in
      ((at / block_size + z.map_start) % 2 ^ 32 ≡ c.ptr) × (at % block_size ≡ c.bit)
  locate =
      let s = taken.stands in
      let e = block_of_lem (zone k i v) ready.0 numbered c.ptr c.bit s.lo s.hi s.inside in
      ground (arith, e, taken.number, zone-taken, s.lo, s.hi, s.inside, ready.0.last)

  abbrev pub settled : Volumes C
  settled = put_zone k i w (record (zone k i w) { ptr = c.ptr; bit = c.bit })

  begin-taken :
      begin io k i dev w
      ≡ (true, record { ptr = (zone k i w).ptr; bit = (zone k i w).bit; pass = 0; vol = w })
  unfolding begin
  begin-taken =
      let e : ((zone k i w).ptr == 0) ≡ false =
        ground (arith, zone-taken, taken.stands.lo, ready.0.begins) in
      rw (e, begin) refl

  seek-taken :
      seek io k i dev w b ≡ (true, record { ptr = c.ptr; bit = c.bit; pass = 0; vol = settled })
  unfolding seek
  seek-taken =
      let e : (c.ptr == (zone k i w).ptr) ≡ true = ground (arith, zone-taken) in
      rw (locate.0, locate.1, e) refl

  pub bit-taken : bit_get (w.memory k i) c.bit ≡ 1
  bit-taken =
      let set = bit_get-bit_set (c.vol.memory k i) c.bit 1 c.bit taken.stands.bytes (omega arith) in
      rw taken.memory (ground (arith, set))

  pub free_at-taken :
      free_at io k i dev w b ≡ (inode_ok, set_memory settled k i (bit_set (w.memory k i) c.bit 0))
  unfolding free_at
  free_at-taken = rw (begin-taken, seek-taken, bit-taken) refl
