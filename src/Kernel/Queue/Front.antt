-- ===== src/Kernel/Queue/Front.antt =====
-- queue_read_front of kernel/process_queue.c.
use ox.Base.{ℕ, ◌^◌, ◌<◌, ◌≡◌, refl, false, List, [], ◌∷◌, ◌==◌, some, update, arith, length, dec32}
use ox.Kernel.Process.{mem, distinct}
use ox.Kernel.Queue.{Store, queue_read_front, clear_single}
use ox.Kernel.Queue.Ring.{Linked, Holds, Linked-mem, Linked-same}

-- The head of a ring of two or more after its successor.
abbrev pub beheaded : Store → ℕ → ℕ → ℕ → ℕ → Store
beheaded s p a b z = record s {
  next = update (update s.next z b) a 0;
  prev = update (update s.prev b z) a 0;
  tab = update s.tab p b;
  size = update s.size p (dec32 (s.size p));
}

pub beheaded-Holds :
    (s : Store) (p a b : ℕ) (rest : List ℕ)
    → Holds s p (a ∷ b ∷ rest)
    → length (a ∷ b ∷ rest) < 2 ^ 32
    → Holds (beheaded s p a b (s.prev a)) p (b ∷ rest)
unfolding Holds Linked mem distinct
beheaded-Holds s p a b rest (z, (e, f, l), forth, back, head, size, real, one) fits =
    let t = beheaded s p a b z in
    let last = Linked-mem s.next s.prev b rest z l in
    let same =
      Linked-same s.next s.prev t.next t.prev b rest z (ground arith) (λ x m far. ground arith)
        (λ x m. ground arith) l in
    rw back (
      z,
      same,
      ground arith,
      ground arith,
      ground arith,
      ground (arith, size),
      ground arith,
      ground arith,
    )

-- queue_read_front of the head, of priority p, of a ring of a sequence without repeats, shorter
-- than 2 ^ 32: it does not panic, queue p is then the ring of the rest of the sequence, and the
-- two pointers of the head are NULL.
pub queue_read_front-Holds :
    (s : Store) (p a : ℕ) (rest : List ℕ)
    → Holds s p (a ∷ rest)
    → s.priority a ≡ p
    → length (a ∷ rest) < 2 ^ 32
    → (t : Store) × (queue_read_front a s ≡ some t)
      × Holds t p rest
      × (t.next a ≡ 0)
      × (t.prev a ≡ 0)
unfolding Holds queue_read_front Linked mem distinct
queue_read_front-Holds s p a [] (z, e, forth, back, head, size, real, one) mine fits = (
  clear_single s a p,
  ground (arith, e, forth, back, size, mine),
  (ground arith, ground (arith, size)),
  ground arith,
  ground arith,
)
queue_read_front-Holds s p a (b ∷ rest) (z, (e, f, l), forth, back, head, size, real, one) mine
      fits =
    let held : Holds s p (a ∷ b ∷ rest) = (z, (e, f, l), forth, back, head, size, real, one) in
    let last = Linked-mem s.next s.prev b rest z l in
    let two : (b == a) ≡ false = ground arith in
    let apart : (a == z) ≡ false = ground (arith, last) in
    let taken : queue_read_front a s ≡ some (beheaded s p a b (s.prev a)) =
      rw (mine, head, back, e, two, apart, queue_read_front) refl in
    (
      beheaded s p a b (s.prev a),
      taken,
      beheaded-Holds s p a b rest held fits,
      ground arith,
      ground arith,
    )
