-- ===== src/Fs/Inode/Map/Fit.antt =====
-- Which bit inode_get_data_block and inode_get_inode_block of fs/inode.c choose: the first clear one
-- of the map's block in memory from the map's bit on.
use ox.Base.{
  ℕ, zero, suc, ◌+◌, ◌-◌, ◌%◌, ◌<◌, ◌≤◌, ◌≡◌, ◌≢◌, ◌⊎◌, refl, ap, ◌∙◌, inl, inr, true, false, ◌==◌,
  some, ltb, arith, Bool-cases,
}
use mathlib.Core.Path.{fun_ext}
use ox.Fs.Bitmap.{bit_get, bit_set}
use ox.Fs.Inode.{InodeRtvl, inode_ok, inode_fail, inode_nopos, block_size, inode_nr_pass}
use ox.Fs.Inode.Master.{Zone, Kind, Volumes, set_memory, master_get}
use ox.Fs.Inode.Device.{BlockIo, Layout}
use ox.Fs.Inode.Map.{
  Cursor, zone, put_zone, block_of, begin, advance, take, get_loop, get_at, get_block,
}
use ox.Fs.Inode.Map.Bound.{zone-put_zone}
use ox.Fs.Inode.Map.Take.{is_kind_refl}

-- j is the first clear bit of a map's block from `bit` on.
pub record IsFirst (bytes : ℕ → ℕ) (bit j : ℕ) : Type 0 where
  pub from : bit ≤ j
  pub small : j < block_size
  pub clear : bit_get bytes j ≡ 0
  pub earlier : (x : ℕ) → bit ≤ x → x < j → bit_get bytes x ≢ 0

-- A block that was chosen: success with its number, or a write that failed. Either way the bit is
-- set in memory.
pub record Chosen {C : Type 0} (k : Kind) (i ptr j : ℕ) (v : Volumes C)
    (r : InodeRtvl × ℕ × Volumes C) : Type 0 where
  pub result :
      ((r.0 ≡ inode_ok) × (r.1 ≡ block_of (zone k i v) ptr j))
      ⊎ ((r.0 ≡ inode_fail) × (r.1 ≡ inode_nopos))
  pub memory : r.2.memory k i ≡ bit_set (v.memory k i) j 1
  pub bit : (zone k i r.2).bit ≡ j

module _ {C : Type 0} (io : BlockIo C) (layout : Layout) (k : Kind) (i dev : ℕ) where
  take-Chosen : (c : Cursor C) → Chosen k i c.ptr c.bit c.vol (take io layout k i dev c)
  unfolding take
  take-Chosen c =
      let z : Zone = record (zone k i c.vol) { bit = c.bit } in
      let m = bit_set (c.vol.memory k i) c.bit 1 in
      let u = set_memory c.vol k i m in
      let w = put_zone k i u z in
      let first = io.write w.cache dev (w.tab i).block_start (layout.image (w.tab i)) in
      let second = io.write first.1 dev c.ptr (w.memory k i) in
      let at : w.memory k i ≡ m = fun_ext (λ x. ground (arith, is_kind_refl k)) in
      let bit : (zone k i w).bit ≡ c.bit = ap (λ y. y.bit) (zone-put_zone k i u z) in
      elim (Bool-cases first.0) [
        | inr e ↦ rw e (record { result = inr (refl, refl); memory = at; bit = bit })
        | inl e ↦ elim (Bool-cases second.0) [
          | inr e' ↦ rw (e, e') (record { result = inr (refl, refl); memory = at; bit = bit })
          | inl e' ↦ rw (e, e') (record { result = inl (refl, refl); memory = at; bit = bit })
        ]
      ]

  -- The next cursor within a block.
  abbrev next : Cursor C → Cursor C
  next c =
      let bit = (c.bit + 1) % block_size in
      record c { bit = bit; vol = put_zone k i c.vol (record (zone k i c.vol) { bit = bit }) }

  advance-next : (c : Cursor C) → c.bit + 1 < block_size → advance io k i dev c ≡ (true, next c)
  unfolding advance
  advance-next c h = let e : ((c.bit + 1) % block_size == 0) ≡ false = ground arith in rw e refl

  next-Chosen :
      (c : Cursor C) (j : ℕ) (r : InodeRtvl × ℕ × Volumes C)
      → Chosen k i c.ptr j (next c).vol r
      → Chosen k i c.ptr j c.vol r
  next-Chosen c j r h =
      let z =
        zone-put_zone k i c.vol (record (zone k i c.vol) { bit = (c.bit + 1) % block_size }) in
      let e : block_of (zone k i (next c).vol) c.ptr j ≡ block_of (zone k i c.vol) c.ptr j =
        ap (λ y. block_of y c.ptr j) z in
      record {
        result = elim h.result [ inl (ok, same) ↦ inl (ok, same ∙ e) | inr bad ↦ inr bad ];
        memory = h.memory;
        bit = h.bit;
      }

  get_loop-Chosen :
      (n : ℕ) (c : Cursor C) (j : ℕ)
      → IsFirst (c.vol.memory k i) c.bit j
      → c.pass < inode_nr_pass
      → j - c.bit < n
      → (r : InodeRtvl × ℕ × Volumes C) × (get_loop io layout k i dev n c ≡ some r)
        × Chosen k i c.ptr j c.vol r
  unfolding get_loop
  get_loop-Chosen zero c j is pass fuel = absurd (omega arith)
  get_loop-Chosen (suc n) c j is pass fuel = elim (Bool-cases (c.bit == j)) [
    | inl here ↦
        let e : c.bit ≡ j = ground arith in
        let clear : (bit_get (c.vol.memory k i) c.bit == 0) ≡ true = ground (arith, is.clear) in
        (take io layout k i dev c, rw clear refl, rw (← e) (take-Chosen c))
    | inr later ↦
        let less : c.bit < j = ground (arith, is.from) in
        let set : (bit_get (c.vol.memory k i) c.bit == 0) ≡ false =
          ground (arith, is.earlier c.bit) in
        let room : c.bit + 1 < block_size = omega (arith, less, is.small) in
        let here : (next c).bit ≡ c.bit + 1 = omega (arith, room) in
        let is' : IsFirst ((next c).vol.memory k i) (next c).bit j = record {
          from = omega (arith, less, room);
          small = is.small;
          clear = is.clear;
          earlier = λ x lo hi. is.earlier x (omega (arith, lo, room)) hi;
        } in
        let more : ltb c.pass inode_nr_pass ≡ true = ground arith in
        let (r, e, h) = get_loop-Chosen n (next c) j is' pass (omega (arith, less, room, fuel)) in
        (r, rw (set, advance-next c room, more) e, next-Chosen c j r h)
  ]

  -- Where a map has a block in memory with a clear bit from the map's bit on,
  -- inode_get_data_block and inode_get_inode_block take the first of these: the result is success
  -- with the number that belongs to it, or failure with INODE_NOPOS, and in both cases the bit is
  -- set in memory and becomes the map's bit. One round more than the bit is ahead is enough.
  pub get_block-Chosen :
      (v : Volumes C) (block j n : ℕ)
      → master_get v dev ≡ some i
      → (zone k i v).ptr ≢ 0
      → IsFirst (v.memory k i) (zone k i v).bit j
      → j - (zone k i v).bit < n
      → (r : InodeRtvl × ℕ × Volumes C) × (get_block io layout k n v dev block ≡ some r)
        × Chosen k i (zone k i v).ptr j v r
  unfolding get_block get_at begin
  get_block-Chosen v block j n at used first fuel =
      let e : ((zone k i v).ptr == 0) ≡ false = ground (arith, used) in
      let z = zone k i v in
      rw (at, get_block, e)
        (get_loop-Chosen n (record { ptr = z.ptr; bit = z.bit; pass = 0; vol = v }) j first
          (omega arith) fuel)
