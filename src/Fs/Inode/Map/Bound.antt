-- ===== src/Fs/Inode/Map/Bound.antt =====
-- How often the loop of inode_get_data_block and inode_get_inode_block in fs/inode.c runs.
use ox.Base.{
  ℕ, zero, suc, ◌+◌, ◌-◌, ◌*◌, ◌^◌, ◌%◌, ◌<◌, ◌≤◌, ◌≡◌, ◌≢◌, refl, inl, inr, true, ◌==◌, ◌&&◌, some,
  if◌then◌else◌, ltb, inc32, arith, Bool-cases, Option-cases,
}
use ox.Fs.Bitmap.{bit_get}
use ox.Fs.Inode.{InodeRtvl, block_size, inode_nr_pass}
use ox.Fs.Inode.Master.{Zone, Kind, inode_kind, data_kind, Volumes, master_get}
use ox.Fs.Inode.Device.{BlockIo, Layout}
use ox.Fs.Inode.Map.{Cursor, zone, put_zone, begin, advance, get_loop, get_at, get_block}

-- The map has a block, and no pointer into it wraps round.
pub record IsMap (z : Zone) : Type 0 where
  pub some_block : z.map_start < z.map_end
  pub begins : 0 < z.map_start
  pub last : z.map_end < 2 ^ 32

-- The rounds that are left before the second pass ends, of a map of `size` blocks.
abbrev rounds : ℕ → ℕ → ℕ → ℕ → ℕ → ℕ
rounds size map_end ptr bit pass =
    (if pass == 0 then block_size * size else 0)
    + block_size * (if ltb ptr map_end then map_end - ptr else 1)
    - bit

module _ {C : Type 0} (k : Kind) (i : ℕ) where
  pub zone-put_zone : (v : Volumes C) (z : Zone) → zone k i (put_zone k i v z) ≡ z
  zone-put_zone v z = go k
    where
      go : (k : Kind) → zone k i (put_zone k i v z) ≡ z
      go inode_kind = ground arith
      go data_kind = ground arith

  -- Where a map's pointers may stand: at 0, or at a bit of one of its blocks.
  abbrev pub IsReady : Volumes C → Type 0
  IsReady v =
      let z = zone k i v in
      IsMap z × (z.bit < block_size) × (z.ptr < z.map_end) × (z.ptr ≢ 0 → z.map_start ≤ z.ptr)

module _ {C : Type 0} (io : BlockIo C) (k : Kind) (i dev : ℕ) where
  abbrev Inside : Zone → Cursor C → Type 0
  Inside z c =
      (c.bit < block_size)
      × (c.pass < inode_nr_pass)
      × (c.ptr < z.map_end)
      × ((zone k i c.vol).map_start ≡ z.map_start)
      × ((zone k i c.vol).map_end ≡ z.map_end)

  abbrev left : Zone → Cursor C → ℕ
  left z c = rounds (z.map_end - z.map_start) z.map_end c.ptr c.bit c.pass

  -- What a round leaves of the zone.
  pub advance-zone :
      (c : Cursor C)
      → let z = zone k i c.vol in
        let y = zone k i (advance io k i dev c).1.vol in
        (y.map_start ≡ z.map_start)
        × (y.map_end ≡ z.map_end)
        × (y.start ≡ z.start)
        × (z.ptr ≡ c.ptr → y.ptr ≡ (advance io k i dev c).1.ptr)
  unfolding advance
  advance-zone c =
      let z = zone k i c.vol in
      let bit = (c.bit + 1) % block_size in
      let v = put_zone k i c.vol (record z { bit = bit }) in
      let ptr = if ltb (inc32 c.ptr) z.map_end then inc32 c.ptr else z.map_start in
      let e = zone-put_zone k i c.vol (record z { bit = bit }) in
      let e' = zone-put_zone k i v (record z { ptr = ptr; bit = bit }) in ground (arith, e, e')

  advance-Inside :
      (z : Zone) (c : Cursor C)
      → IsMap z
      → Inside z c
      → (advance io k i dev c).0 ≡ true
      → (advance io k i dev c).1.pass < inode_nr_pass
      → Inside z (advance io k i dev c).1 × (left z (advance io k i dev c).1 < left z c)
  unfolding advance
  advance-Inside z c is h ok pass = ground (arith, advance-zone c)

  pub begin-zone :
      (v : Volumes C)
      → let z = zone k i v in
        let c = (begin io k i dev v).1 in
        let y = zone k i c.vol in
        (y.map_start ≡ z.map_start)
        × (y.map_end ≡ z.map_end)
        × (y.start ≡ z.start)
        × (y.ptr ≡ c.ptr)
        × (c.ptr ≡ (if z.ptr == 0 then z.map_start else z.ptr))
        × (c.bit ≡ (if z.ptr == 0 then 0 else z.bit))
        × (c.pass ≡ 0)
  unfolding begin
  begin-zone v =
      let z = zone k i v in ground (arith, zone-put_zone k i v (record z { ptr = z.map_start }))

  module _ (layout : Layout) where
    get_loop-some :
        (n : ℕ) (z : Zone) (c : Cursor C)
        → IsMap z
        → Inside z c
        → left z c < n
        → (r : InodeRtvl × ℕ × Volumes C) × (get_loop io layout k i dev n c ≡ some r)
    unfolding get_loop
    get_loop-some zero z c is h less = absurd (omega arith)
    get_loop-some (suc n) z c is h less =
        let d = (advance io k i dev c).1 in
        elim (Bool-cases (bit_get (c.vol.memory k i) c.bit == 0)) [
          | inl clear ↦ rw clear (_, refl)
          | inr taken ↦ elim (Bool-cases (advance io k i dev c).0) [
            | inr bad ↦ rw (taken, bad) (_, refl)
            | inl ok ↦ elim (Bool-cases (ltb d.pass inode_nr_pass)) [
              | inr over ↦ rw (taken, ok, over) (_, refl)
              | inl more ↦
                  let s = advance-Inside z c is h ok (ground arith) in
                  let (r, e) = get_loop-some n z d is s.0 (omega (arith, s.1)) in
                  rw (taken, ok, more) (r, e)
            ]
          ]
        ]

    get_at-some :
        (v : Volumes C) (n : ℕ)
        → IsReady k i v
        → let z = zone k i v in
          2 * block_size * (z.map_end - z.map_start) < n
          → (r : InodeRtvl × ℕ × Volumes C) × (get_at io layout k i dev n v ≡ some r)
    unfolding get_at
    get_at-some v n ready fuel =
        let z = zone k i v in
        let c = (begin io k i dev v).1 in
        let b = begin-zone v in
        elim (Bool-cases (z.ptr == 0 && ((v.tab i).init_fs == 0))) [
          | inl bad ↦ rw bad (_, refl)
          | inr good ↦ elim (Bool-cases (begin io k i dev v).0) [
            | inr bad ↦ rw (good, bad) (_, refl)
            | inl ok ↦
                rw (good, ok) (get_loop-some n z c ready.0 (ground (arith, b)) (ground (arith, b)))
          ]
        ]

module _ {C : Type 0} (io : BlockIo C) (layout : Layout) where
  -- If the pointers of the map of the device's master inode, where it has one, are in order, then
  -- with more fuel than two passes over the bits of the map have rounds inode_get_data_block and
  -- inode_get_inode_block return, whatever the map holds and whichever transfers fail.
  pub get_block-some :
      (k : Kind) (v : Volumes C) (dev block n : ℕ)
      → ((i : ℕ) → master_get v dev ≡ some i → IsReady k i v)
      → ((i : ℕ)
          → master_get v dev ≡ some i
          → 2 * block_size * ((zone k i v).map_end - (zone k i v).map_start) < n)
      → (r : InodeRtvl × ℕ × Volumes C) × (get_block io layout k n v dev block ≡ some r)
  unfolding get_block
  get_block-some k v dev block n ready fuel = elim (Option-cases (master_get v dev)) [
    | inl e ↦ rw (e, get_block) (_, refl)
    | inr (i, e) ↦ rw (e, get_block) (get_at-some io k i dev layout v n (ready i e) (fuel i e))
  ]
