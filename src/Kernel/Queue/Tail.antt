-- ===== src/Kernel/Queue/Tail.antt =====
-- queue_insert_p of kernel/process_queue.c.
use ox.Base.{
  ℕ, ◌+◌, ◌^◌, ◌<◌, ◌≡◌, ◌≢◌, refl, true, false, ◌||◌, List, [], ◌∷◌, ◌++◌, ◌==◌, some, update,
  arith, length, inc32,
}
use ox.Kernel.Process.{mem, distinct}
use ox.Kernel.Queue.{Store, link_tail, queue_insert_p, set_size, make_single}
use ox.Kernel.Queue.Ring.{Linked, Holds, Linked-mem, Linked-same, Linked-snoc}

mem-snoc : (x q : ℕ) (list : List ℕ) → mem x (list ++ q ∷ []) ≡ (mem x list || (x == q))
unfolding mem
mem-snoc x q [] = ground arith
mem-snoc x q (a ∷ rest) = ground (arith, mem-snoc x q rest)

distinct-snoc :
    (list : List ℕ) (q : ℕ)
    → distinct list ≡ true
    → mem q list ≡ false
    → distinct (list ++ q ∷ []) ≡ true
unfolding distinct mem
distinct-snoc [] q one new = refl
distinct-snoc (a ∷ rest) q one new = ground (arith, distinct-snoc rest q, mem-snoc a q rest)

length-snoc : (list : List ℕ) (q : ℕ) → length (list ++ q ∷ []) ≡ length list + 1
length-snoc [] q = refl
length-snoc (a ∷ rest) q = ground (arith, length-snoc rest q)

-- The four writes on a ring that is not empty.
link_tail-Holds :
    (s : Store) (q p a : ℕ) (rest : List ℕ)
    → Holds s p (a ∷ rest)
    → q ≢ 0
    → mem q (a ∷ rest) ≡ false
    → length (a ∷ rest) + 1 < 2 ^ 32
    → Holds (set_size (link_tail s q p) p (inc32 (s.size p))) p (a ∷ rest ++ q ∷ [])
unfolding Holds link_tail mem distinct
link_tail-Holds s q p a rest (z, l, forth, back, head, size, real, one) used new fits =
    let t = link_tail s q p in
    let last = Linked-mem s.next s.prev a rest z l in
    let tail : update s.prev q (s.prev (s.tab p)) (s.tab p) ≡ z = ground (arith, head, back) in
    let same =
      Linked-same s.next s.prev t.next t.prev a rest z one (λ x m far. ground (arith, head, tail))
        (λ x m. ground (arith, head, tail)) l in
    (
      q,
      Linked-snoc t.next t.prev a rest z q same (ground (arith, tail)) (ground (arith, head, back)),
      ground (arith, head, tail),
      ground (arith, head, tail),
      head,
      ground (arith, size, length-snoc rest q),
      ground (arith, mem-snoc 0 q rest),
      ground (arith, mem-snoc a q rest, distinct-snoc rest q),
    )

-- queue_insert_p of a process other than NULL that is not on queue p, in a store whose queue p is
-- a ring of a sequence without repeats, or empty, whose size and one fit a word: it does not
-- panic, and queue p is then the ring of the sequence with the process at its end.
pub queue_insert_p-Holds :
    (s : Store) (q p : ℕ) (list : List ℕ)
    → Holds s p list
    → q ≢ 0
    → mem q list ≡ false
    → length list + 1 < 2 ^ 32
    → (t : Store) × (queue_insert_p q p s ≡ some t) × Holds t p (list ++ q ∷ [])
unfolding Holds queue_insert_p link_tail Linked mem distinct
queue_insert_p-Holds s q p [] (head, size) used new fits = (
  make_single (record s { priority = update s.priority q p }) q p,
  ground (arith, head, size),
  (q, refl, ground arith, ground arith, ground arith, ground (arith, size), ground arith, refl),
)
queue_insert_p-Holds s q p (a ∷ rest) (z, l, forth, back, head, size, real, one) used new fits =
    let s' = record s { priority = update s.priority q p } in
    let given : Holds s' p (a ∷ rest) = (z, l, forth, back, head, size, real, one) in
    (
      set_size (link_tail s' q p) p (inc32 (s.size p)),
      ground (arith, head),
      link_tail-Holds s' q p a rest given used new fits,
    )
