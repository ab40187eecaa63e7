-- ===== src/Fs/Inode/Map/Take.antt =====
-- The block that inode_get_data_block and inode_get_inode_block of fs/inode.c give.
use ox.Base.{
  ℕ, zero, suc, ◌+◌, ◌%◌, ◌<◌, ◌≤◌, ◌≡◌, refl, ap, ◌∙◌, inl, inr, true, false, ◌==◌, ◌&&◌, some,
  if◌then◌else◌, ltb, inc32, arith, Bool-cases, is_negative,
}
use mathlib.Core.Path.{fun_ext}
use ox.Fs.Bitmap.{bit_get, bit_set, IsBytes, bit_set-IsBytes}
use ox.Fs.Inode.{inode_ok, block_size, inode_nr_pass}
use ox.Fs.Inode.Master.{Zone, Kind, inode_kind, data_kind, Volumes, is_kind, set_memory}
use ox.Fs.Inode.Device.{BlockIo, IsBlockIo, Layout}
use ox.Fs.Inode.Map.{Cursor, zone, put_zone, block_of, load, begin, advance, take, get_loop, get_at}
use ox.Fs.Inode.Map.Bound.{IsMap, IsReady, zone-put_zone, advance-zone, begin-zone}

pub is_kind_refl : (k : Kind) → is_kind k k ≡ true
is_kind_refl inode_kind = refl
is_kind_refl data_kind = refl

module _ {C : Type 0} (k : Kind) (i : ℕ) where
  pub put_zone-dev :
      (v : Volumes C) (z : Zone) (j : ℕ) → ((put_zone k i v z).tab j).dev ≡ (v.tab j).dev
  put_zone-dev v z j = go k
    where
      go : (k : Kind) → ((put_zone k i v z).tab j).dev ≡ (v.tab j).dev
      go inode_kind = ground arith
      go data_kind = ground arith

module _ {C : Type 0} (io : BlockIo C) (law : IsBlockIo io) (k : Kind) (i dev : ℕ) where
  -- A cursor stands in the map of v, whose block in memory consists of bytes.
  pub record Stands (v : Volumes C) (c : Cursor C) : Type 0 where
    pub lo : (zone k i v).map_start ≤ c.ptr
    pub hi : c.ptr < (zone k i v).map_end
    pub inside : c.bit < block_size
    pub map_start : (zone k i c.vol).map_start ≡ (zone k i v).map_start
    pub map_end : (zone k i c.vol).map_end ≡ (zone k i v).map_end
    pub start : (zone k i c.vol).start ≡ (zone k i v).start
    pub ptr : (zone k i c.vol).ptr ≡ c.ptr
    pub bytes : IsBytes (c.vol.memory k i)
    pub devices : (j : ℕ) → (c.vol.tab j).dev ≡ (v.tab j).dev

  pub load-IsBytes : (v : Volumes C) (block : ℕ) → IsBytes ((load io k i dev v block).1.memory k i)
  load-IsBytes v block x =
      ground (arith, is_kind_refl k, law.read_bytes v.cache dev block (v.memory k i) x)

  begin-Stands :
      (v : Volumes C) → IsReady k i v → IsBytes (v.memory k i) → Stands v (begin io k i dev v).1
  unfolding begin
  begin-Stands v ready is =
      let z = zone k i v in
      let w = put_zone k i v (record z { ptr = z.map_start }) in
      let b = begin-zone io k i dev v in
      record {
        lo = ground (arith, b);
        hi = ground (arith, b);
        inside = ground (arith, b);
        map_start = b.0;
        map_end = b.1;
        start = b.2;
        ptr = b.3;
        bytes = λ x. ground (arith, is x, load-IsBytes w z.map_start x);
        devices = λ j. ground (arith, put_zone-dev k i v (record z { ptr = z.map_start }) j);
      }

  advance-Stands :
      (v : Volumes C) (c : Cursor C)
      → IsMap (zone k i v)
      → Stands v c
      → Stands v (advance io k i dev c).1
  unfolding advance
  advance-Stands v c is s =
      let z = zone k i c.vol in
      let bit = (c.bit + 1) % block_size in
      let w = put_zone k i c.vol (record z { bit = bit }) in
      let ptr = if ltb (inc32 c.ptr) z.map_end then inc32 c.ptr else z.map_start in
      let z' : Zone = record z { ptr = ptr; bit = bit } in
      let a = advance-zone io k i dev c in
      record {
        lo = ground arith;
        hi = ground arith;
        inside = ground arith;
        map_start = a.0 ∙ s.map_start;
        map_end = a.1 ∙ s.map_end;
        start = a.2 ∙ s.start;
        ptr = a.3 s.ptr;
        bytes = λ x. ground (arith, s.bytes x, load-IsBytes (put_zone k i w z') ptr x);
        devices = λ j. ground (
          arith,
          s.devices j,
          put_zone-dev k i c.vol (record z { bit = bit }) j,
          put_zone-dev k i w z' j,
        );
      }

  module _ (layout : Layout) where
    -- A success of `take`: the number, the map's block in memory, which a read of that block gives
    -- back, and the pointers.
    pub record Taken (v : Volumes C) (c : Cursor C) (b : ℕ) (w : Volumes C) : Type 0 where
      pub stands : Stands v c
      pub clear : bit_get (c.vol.memory k i) c.bit ≡ 0
      pub number : b ≡ block_of (zone k i v) c.ptr c.bit
      pub memory : w.memory k i ≡ bit_set (c.vol.memory k i) c.bit 1
      pub zone_after : zone k i w ≡ record (zone k i c.vol) { bit = c.bit }
      pub devices : (j : ℕ) → (w.tab j).dev ≡ (v.tab j).dev
      pub on_disk :
          is_negative dev ≡ false
          → (out : ℕ → ℕ)
          → let r = io.read w.cache dev c.ptr out in
            (r.0 ≡ true) × ((x : ℕ) → x < block_size → r.1 x ≡ w.memory k i x)

    take-Taken :
        (v : Volumes C) (c : Cursor C)
        → Stands v c
        → bit_get (c.vol.memory k i) c.bit ≡ 0
        → (take io layout k i dev c).0 ≡ inode_ok
        → Taken v c (take io layout k i dev c).1 (take io layout k i dev c).2
    unfolding take
    take-Taken v c s clear ok =
        let z : Zone = record (zone k i c.vol) { bit = c.bit } in
        let m = bit_set (c.vol.memory k i) c.bit 1 in
        let u = set_memory c.vol k i m in
        let w = put_zone k i u z in
        let first = io.write w.cache dev (w.tab i).block_start (layout.image (w.tab i)) in
        let second = io.write first.1 dev c.ptr (w.memory k i) in
        elim (Bool-cases first.0) [
          | inr bad ↦ absurd (ground arith)
          | inl e ↦ elim (Bool-cases second.0) [
            | inr bad ↦ absurd (ground arith)
            | inl e' ↦
                let at : w.memory k i ≡ m = fun_ext (λ x. ground (arith, is_kind_refl k)) in
                let is : IsBytes (w.memory k i) = λ x.
                  ground
                    (arith, is_kind_refl k, bit_set-IsBytes (c.vol.memory k i) c.bit 1 s.bytes x) in
                rw (e, e')
                  (record {
                    stands = s;
                    clear = clear;
                    number = ground (arith, s.start, s.map_start);
                    memory = at;
                    zone_after = zone-put_zone k i u z;
                    devices = λ j. put_zone-dev k i u z j ∙ s.devices j;
                    on_disk =
                        λ plain out. law.read_back first.1 dev c.ptr (w.memory k i) out is plain e';
                  })
          ]
        ]

    get_loop-Taken :
        (n : ℕ) (v : Volumes C) (c : Cursor C) (b : ℕ) (w : Volumes C)
        → IsMap (zone k i v)
        → Stands v c
        → get_loop io layout k i dev n c ≡ some (inode_ok, b, w)
        → (d : Cursor C) × Taken v d b w
    unfolding get_loop
    get_loop-Taken zero v c b w is s h = absurd (cc)
    get_loop-Taken (suc n) v c b w is s h =
        let d = (advance io k i dev c).1 in
        elim (Bool-cases (bit_get (c.vol.memory k i) c.bit == 0)) [
          | inl clear ↦
              let e : take io layout k i dev c ≡ (inode_ok, b, w) = ground arith in
              (
                c,
                rw (← ap (λ t. t.1) e, ← ap (λ t. t.2) e)
                    (take-Taken v c s (ground arith) (ap (λ t. t.0) e)),
              )
          | inr taken ↦ elim (Bool-cases (advance io k i dev c).0) [
            | inr bad ↦ absurd (ground arith)
            | inl ok ↦ elim (Bool-cases (ltb d.pass inode_nr_pass)) [
              | inr over ↦ absurd (ground arith)
              | inl more ↦ get_loop-Taken n v d b w is (advance-Stands v c is s) (ground arith)
            ]
          ]
        ]

    pub get_at-Taken :
        (n : ℕ) (v : Volumes C) (b : ℕ) (w : Volumes C)
        → IsReady k i v
        → IsBytes (v.memory k i)
        → get_at io layout k i dev n v ≡ some (inode_ok, b, w)
        → (d : Cursor C) × Taken v d b w
    unfolding get_at
    get_at-Taken n v b w ready is h =
        let z = zone k i v in
        let c = (begin io k i dev v).1 in
        elim (Bool-cases (z.ptr == 0 && ((v.tab i).init_fs == 0))) [
          | inl bad ↦ absurd (ground arith)
          | inr good ↦ elim (Bool-cases (begin io k i dev v).0) [
            | inr bad ↦ absurd (ground arith)
            | inl ok ↦ get_loop-Taken n v c b w ready.0 (begin-Stands v ready is) (ground arith)
          ]
        ]
