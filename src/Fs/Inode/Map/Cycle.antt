-- ===== src/Fs/Inode/Map/Cycle.antt =====
-- inode_get_data_block with inode_free_data_block, and inode_get_inode_block with
-- inode_free_inode_block, of fs/inode.c.
use ox.Base.{
  ℕ, ◌+◌, ◌-◌, ◌*◌, ◌/◌, ◌<◌, ◌≤◌, ◌≡◌, ◌≢◌, ◌⊎◌, refl, sym, ◌∙◌, inl, inr, true, false, ◌==◌, some,
  if◌then◌else◌, arith, is_negative,
}
use mathlib.Core.Path.{fun_ext}
use ox.Fs.Bitmap.{bit_get, bit_set, IsBytes, bit_set-IsBytes, bit_get-bit_set, bit_get-same}
use ox.Fs.Inode.{InodeRtvl, inode_ok, inode_fail, inode_nopos, block_size, inode_nr_dev}
use ox.Fs.Inode.Master.{Zone, Kind, Volumes, set_memory, master_get}
use ox.Fs.Inode.Master.Table.{find_dev-same}
use ox.Fs.Inode.Device.{BlockIo, IsBlockIo, Layout}
use ox.Fs.Inode.Map.{Cursor, zone, block_of, get_at, get_block, free_block}
use ox.Fs.Inode.Map.Bound.{IsReady, zone-put_zone}
use ox.Fs.Inode.Map.Take.{Taken, get_at-Taken, is_kind_refl, put_zone-dev}
use ox.Fs.Inode.Map.Free.{IsNumbered, block_of_lem, settled, free_at-taken, zone-taken, bit-taken}
use ox.Fs.Inode.Map.Fit.{IsFirst, get_block-Chosen}

-- A mounted volume whose map of a kind has its pointers in order, and its block in memory as bytes.
pub record IsMounted {C : Type 0} (k : Kind) (i dev : ℕ) (v : Volumes C) : Type 0 where
  pub found : master_get v dev ≡ some i
  pub ready : IsReady k i v
  pub numbered : IsNumbered (zone k i v)
  pub bytes : IsBytes (v.memory k i)

-- What a success of inode_get_..._block tells about the number b and the state w.
pub record Given {C : Type 0} (io : BlockIo C) (k : Kind) (i dev : ℕ) (v : Volumes C) (b : ℕ)
    (w : Volumes C) : Type 0 where
  pub mounted : IsMounted k i dev w
  pub least : (zone k i v).start ≤ b
  pub most : b < (zone k i v).start + block_size * ((zone k i v).map_end - (zone k i v).map_start)
  pub set : bit_get (w.memory k i) (zone k i w).bit ≡ 1
  pub used : (zone k i w).ptr ≢ 0
  pub number : b ≡ block_of (zone k i w) (zone k i w).ptr (zone k i w).bit
  pub on_disk :
      is_negative dev ≡ false
      → (out : ℕ → ℕ)
      → let r = io.read w.cache dev (zone k i w).ptr out in
        (r.0 ≡ true) × ((x : ℕ) → x < block_size → r.1 x ≡ w.memory k i x)

module _ {C : Type 0} (io : BlockIo C) (law : IsBlockIo io) (layout : Layout) (k : Kind) (i dev : ℕ)
    (v : Volumes C) (mounted : IsMounted k i dev v) (block n b : ℕ) (w : Volumes C)
    (got : get_block io layout k n v dev block ≡ some (inode_ok, b, w)) where
  taken : (c : Cursor C) × Taken io law k i dev layout v c b w
  unfolding get_block
  taken =
      let e : get_block io layout k n v dev block ≡ get_at io layout k i dev n v =
        rw (mounted.found, get_block) refl in
      get_at-Taken io law k i dev layout n v b w mounted.ready mounted.bytes (sym e ∙ got)

  -- The same holds of a state that differs from w in what does not count.
  still-IsMounted :
      (u : Volumes C)
      → zone k i u ≡ zone k i w
      → ((j : ℕ) → (u.tab j).dev ≡ (w.tab j).dev)
      → IsBytes (u.memory k i)
      → IsMounted k i dev u
  still-IsMounted u same devices is =
      let (c, t) = taken in
      let y = zone-taken io law k i dev layout v c b w mounted.ready mounted.numbered t in
      let s = t.stands in
      let r = mounted.ready in
      record {
        found =
            find_dev-same v.tab u.tab dev inode_nr_dev 0 (λ j. devices j ∙ t.devices j)
            ∙ mounted.found;
        ready = rw same (
          record {
            some_block = ground (arith, y, r.0.some_block);
            begins = ground (arith, y, r.0.begins);
            last = ground (arith, y, r.0.last);
          },
          ground (arith, y, s.inside),
          ground (arith, y, s.hi),
          λ ne. ground (arith, y, s.lo),
        );
        numbered = rw same (ground (arith, y, mounted.numbered));
        bytes = is;
      }

  -- For either kind of map of a mounted volume, if inode_get_data_block or inode_get_inode_block
  -- succeeds: the number lies in the kind's region as far as the map's bits reach, it is the
  -- number of the map's pointer and bit, that bit is set in memory, the volume is still mounted
  -- and, if the device number is not negative, a read of the map's block gives the bytes in
  -- memory.
  pub get_block-Given : Given io k i dev v b w
  get_block-Given =
      let (c, t) = taken in
      let y = zone-taken io law k i dev layout v c b w mounted.ready mounted.numbered t in
      let s = t.stands in
      let e =
        block_of_lem (zone k i v) mounted.ready.0 mounted.numbered c.ptr c.bit s.lo s.hi s.inside in
      let is : IsBytes (w.memory k i) =
        rw t.memory (bit_set-IsBytes (c.vol.memory k i) c.bit 1 s.bytes) in
      record {
        mounted = still-IsMounted w refl (λ j. refl) is;
        least = ground (arith, e, t.number);
        most = ground (arith, e, t.number, s.lo, s.hi, s.inside);
        set = rw y.4 (bit-taken io law k i dev layout v c b w mounted.ready mounted.numbered t);
        used = ground (arith, y, s.lo, mounted.ready.0.begins);
        number = ground (arith, y, t.number);
        on_disk = rw y.3 t.on_disk;
      }

  -- A success of a free, and what it leaves of w.
  pub record Released (r : InodeRtvl × Volumes C) : Type 0 where
    pub result : r.0 ≡ inode_ok
    pub still : IsMounted k i dev r.1
    pub zone_after : zone k i r.1 ≡ zone k i w
    pub cache : r.1.cache ≡ w.cache
    pub bits :
        (x : ℕ)
        → bit_get (r.1.memory k i) x
          ≡ (if x == (zone k i w).bit then 0 else bit_get (w.memory k i) x)

  -- For either kind of map of a mounted volume, if inode_get_data_block or inode_get_inode_block
  -- succeeds, the free function of the same kind, called with the number and the state that it
  -- returned, succeeds: it clears the bit of that block in memory and no other bit, and changes
  -- neither the pointers of the map nor the cache, and the volume is still mounted.
  pub get_block-free_block : Released (free_block io k w dev b)
  unfolding free_block
  get_block-free_block =
      let (c, t) = taken in
      let g = get_block-Given in
      let y = zone-taken io law k i dev layout v c b w mounted.ready mounted.numbered t in
      let u = settled io law k i dev layout v c b w mounted.ready mounted.numbered t in
      let m = bit_set (w.memory k i) c.bit 0 in
      let e : free_block io k w dev b ≡ (inode_ok, set_memory u k i m) =
        rw (g.mounted.found, free_block)
          (free_at-taken io law k i dev layout v c b w mounted.ready mounted.numbered t) in
      let z : Zone = record (zone k i w) { ptr = c.ptr; bit = c.bit } in
      let same : z ≡ zone k i w = ground (arith, y.3, y.4) in
      let at : (set_memory u k i m).memory k i ≡ m =
        fun_ext (λ x. ground (arith, is_kind_refl k)) in
      let y' : zone k i u ≡ zone k i w = zone-put_zone k i w z ∙ same in
      rw e (record {
        result = refl;
        still =
            still-IsMounted (set_memory u k i m) y' (λ j. put_zone-dev k i w z j)
              (rw at (bit_set-IsBytes (w.memory k i) c.bit 0 g.mounted.bytes));
        zone_after = y';
        cache = refl;
        bits = λ x.
            rw (at, y.4) (bit_get-bit_set (w.memory k i) c.bit 0 x g.mounted.bytes (omega arith));
      })

  -- For a mounted volume, after a success of inode_get_data_block or inode_get_inode_block and
  -- the free of that block: the next call, for which one round is enough, gives the same block or
  -- fails with INODE_NOPOS.
  pub free_block-get_block :
      (block' m : ℕ)
      → 0 < m
      → (r : InodeRtvl × ℕ × Volumes C) × (get_block io layout k m
            (free_block io k w dev b).1
            dev
            block'
          ≡ some r)
        × (((r.0 ≡ inode_ok) × (r.1 ≡ b)) ⊎ ((r.0 ≡ inode_fail) × (r.1 ≡ inode_nopos)))
  free_block-get_block block' m fuel =
      let g = get_block-Given in
      let f = get_block-free_block in
      let z = zone k i (free_block io k w dev b).1 in
      let number : b ≡ block_of z z.ptr z.bit = rw f.zone_after g.number in
      let used : z.ptr ≢ 0 = rw f.zone_after g.used in
      let first : IsFirst ((free_block io k w dev b).1.memory k i) z.bit z.bit = record {
        from = omega arith;
        small = f.still.ready.1;
        clear = ground (arith, f.bits z.bit, f.zone_after);
        earlier = λ x lo hi. absurd (omega (arith, lo, hi));
      } in
      let (r, e, h) =
        get_block-Chosen io layout k i dev (free_block io k w dev b).1 block' z.bit m f.still.found
          used first (omega (arith, fuel)) in
      (r, e, elim h.result [ inl (ok, same) ↦ inl (ok, same ∙ sym number) | inr bad ↦ inr bad ])

  -- For a mounted volume whose device number is not negative, after a success of
  -- inode_get_data_block or inode_get_inode_block and the free of that block: the block's bit is
  -- clear in memory, but a read of the map's block through the cache succeeds and gives the bit
  -- as set, since the free functions do not write the map back.
  pub free_block-lost :
      is_negative dev ≡ false
      → (out : ℕ → ℕ)
      → let y = zone k i (free_block io k w dev b).1 in
        let r = io.read (free_block io k w dev b).1.cache dev y.ptr out in
        (bit_get ((free_block io k w dev b).1.memory k i) y.bit ≡ 0)
        × (r.0 ≡ true)
        × (bit_get r.1 y.bit ≡ 1)
  free_block-lost plain out =
      let g = get_block-Given in
      let f = get_block-free_block in
      let z = zone k i w in
      let small : z.bit / 8 < block_size = omega (arith, g.mounted.ready.1) in
      let r = g.on_disk plain out in
      let same =
        bit_get-same (io.read w.cache dev z.ptr out).1 (w.memory k i) z.bit
          (r.1 (z.bit / 8) small) in
      rw (f.zone_after, f.cache) (ground (arith, f.bits z.bit), r.0, same ∙ g.set)
