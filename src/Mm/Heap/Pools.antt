-- ===== src/Mm/Heap/Pools.antt =====
-- The pools of mm/kmalloc.c and mm/malloc.c, and a new one.
use ox.Base.{
  zero, suc, ◌⊎◌, ◌≢◌, inl, inr, ltb, ltb→lt, Bool-cases, ◌∙◌, ap, sym, ℕ, ◌+◌, ◌*◌, ◌/◌, ◌%◌, ◌^◌,
  ◌<◌, ◌≤◌, ◌≡◌, refl, true, false, update, ◌&&◌, ◌==◌, arith,
}
use native.Mathlib.Nat.{suc-mul, le-div_iff_mul-le, div-mul-le_self}
use ox.Mm.Heap.{
  Header, init_headers, Pool, Heap, Pages, header_size, nr_page_size, nr_blocks_of, real_size,
  make_pool,
}

-- The pools of a heap that are in use: a block holds a header, and the blocks lie in the pages.
abbrev pub IsPool : Pool → Type 0
IsPool p =
    0 < p.nr_blocks
    → (header_size ≤ p.rsize) × (p.rsize < 2 ^ 32) × (p.nr_blocks * p.rsize ≤ p.nr_pages * 4096)

abbrev pub IsHeap : {D : Type 0} → Heap D → Type 0
IsHeap h = (a i : ℕ) → IsPool ((h.tables a).sizes i)

pub real_size_lem :
    (size : ℕ)
    → size + 4108 < 2 ^ 32
    → (size + header_size ≤ real_size size) × (real_size size ≤ size + 11)
unfolding real_size
real_size_lem size small = (ground arith, ground arith)

times_mono : (a b r : ℕ) → a ≤ b → a * r ≤ b * r
times_mono zero b r h = omega arith
times_mono (suc a) zero r h = absurd (omega arith)
times_mono (suc a) (suc b) r h =
    omega (arith, suc-mul a r, suc-mul b r, times_mono a b r (omega arith))

-- Two blocks of a pool that are not the same do not overlap.
pub blocks_apart :
    (p : Pool) (k l x y : ℕ)
    → x ≡ p.memory + k * p.rsize
    → y ≡ p.memory + l * p.rsize
    → y ≢ x
    → (x + p.rsize ≤ y) ⊎ (y + p.rsize ≤ x)
blocks_apart p k l x y at_x at_y ne = elim (Bool-cases (ltb k l)) [
  | inl before ↦
      inl (omega (arith, suc-mul k p.rsize, times_mono (suc k) l p.rsize (ltb→lt k l before)))
  | inr other ↦ elim (Bool-cases (ltb l k)) [
    | inl after ↦
        inr (omega (arith, suc-mul l p.rsize, times_mono (suc l) k p.rsize (ltb→lt l k after)))
    | inr same ↦
        let e : k ≡ l = ground arith in
        absurd (ne (at_y ∙ ap (λ t. p.memory + t * p.rsize) (sym e) ∙ sym at_x))
  ]
]

-- The headers of the blocks that are initialised are the only ones that change.
init_headers_lem :
    (n addr rsize : ℕ) (headers : ℕ → Header) (x : ℕ)
    → ((k : ℕ) → k < n → x ≢ addr + k * rsize)
    → init_headers n addr rsize headers x ≡ headers x
unfolding init_headers
init_headers_lem zero addr rsize headers x away = refl
init_headers_lem (suc n) addr rsize headers x away =
    let first : (x == addr) ≡ false = ground (arith, away 0) in
    init_headers_lem n (addr + rsize) rsize
      (update headers addr (record { slot = 0; is_free = true })) x
      (λ k h e. away (suc k) (omega (arith, h)) (omega (arith, e, suc-mul k rsize)))
    ∙ ground (arith, first)

module _ {D : Type 0} (nr_sizes : ℕ) (pages : Pages D) where
  abbrev new_blocks : ℕ → ℕ
  new_blocks size = nr_blocks_of (real_size size) nr_page_size

  abbrev pub new_pool : Heap D → ℕ → Pool
  new_pool h size = record {
    size = size;
    rsize = real_size size;
    nr_blocks = new_blocks size * nr_page_size % 2 ^ 32 / real_size size;
    nr_alloc = 1;
    nr_pages = new_blocks size;
    memory = (pages.alloc h.pages (new_blocks size)).0;
  }

  pub new_pool-IsPool :
      (h : Heap D) (size : ℕ)
      → size + 4108 < 2 ^ 32
      → IsPool (new_pool h size) × (0 < (new_pool h size).nr_blocks)
  new_pool-IsPool h size small =
      let r = real_size_lem size small in
      let bytes = new_blocks size * nr_page_size % 2 ^ 32 in
      let whole : (bytes ≡ new_blocks size * 4096) × (real_size size ≤ bytes) = ground (arith, r) in
      let positive : 0 < real_size size = omega (arith, r.0) in
      let some_block =
        (le-div_iff_mul-le {k = real_size size} {x = 1} {y = bytes} positive).1
          (omega (arith, whole.1)) in
      let fits = div-mul-le_self bytes (real_size size) in
      (λ used. (omega (arith, r.0), omega (arith, r.1), omega (arith, fits, whole.0)), some_block)

  pub make_pool-pool :
      (h : Heap D) (a i slot size : ℕ)
      → let r = make_pool nr_sizes pages h a i slot size in
        ((r.1.tables a).sizes i ≡ new_pool h size)
        × (r.0 ≡ (new_pool h size).memory + header_size)
        × ((r.1.headers (new_pool h size).memory).is_free ≡ false)
        × ((b l : ℕ)
            → ((b == a) && (l == i)) ≡ false
            → (r.1.tables b).sizes l ≡ (h.tables b).sizes l)
        × (r.1.pages ≡ (pages.alloc h.pages (new_pool h size).nr_pages).1)
        × ((x : ℕ)
            → ((k : ℕ)
                → k < (new_pool h size).nr_blocks
                → x ≢ (new_pool h size).memory + k * (new_pool h size).rsize)
            → 0 < (new_pool h size).nr_blocks
            → r.1.headers x ≡ h.headers x)
  unfolding make_pool
  make_pool-pool h a i slot size = (
    ground arith,
    refl,
    ground arith,
    λ b l other. ground (arith, other),
    refl,
    λ x away used.
        let first : x ≢ (new_pool h size).memory = λ e. away 0 used (omega (arith, e)) in
        let kept =
          init_headers_lem (new_pool h size).nr_blocks (new_pool h size).memory (real_size size)
            h.headers x away in
        ground (arith, first, kept),
  )
