-- ===== src/Kernel/Queue/Remove.antt =====
-- queue_remove of kernel/process_queue.c.
use ox.Base.{
  ℕ, ◌^◌, ◌<◌, ◌≡◌, refl, inl, inr, true, false, List, [], ◌∷◌, ◌==◌, some, if◌then◌else◌, update,
  arith, length, dec32, Bool-cases,
}
use ox.Kernel.Process.{mem, distinct}
use ox.Kernel.Queue.{Store, queue_remove, clear_single}
use ox.Kernel.Queue.Front.{beheaded, beheaded-Holds}
use ox.Kernel.Queue.Ring.{Linked, Holds, Linked-mem}
use ox.Kernel.Queue.Links.{
  without, Linked-forth, Linked-back, next_off, prev_off, Linked-without, mem-without,
  distinct-without, length-without, Linked-same_all, prev_apart,
}

-- What taking a process off gives, with the list that is left.
abbrev pub Removed : Store → ℕ → ℕ → List ℕ → Type 0
Removed s p q list =
    (t : Store) × (queue_remove q s ≡ some t) × Holds t p list × (t.next q ≡ 0) × (t.prev q ≡ 0)

module _ (s : Store) (p q a : ℕ) (rest : List ℕ) (held : Holds s p (a ∷ rest))
    (inside : mem q rest ≡ true) (fits : length (a ∷ rest) < 2 ^ 32) where
  -- A store in which the links are as without q, which is not the head.
  off-Holds :
      (next prev : ℕ → ℕ)
      → ((x : ℕ) → next x ≡ next_off s.next s.prev q x)
      → ((x : ℕ) → prev x ≡ prev_off s.next s.prev q x)
      → Holds
          (record s { next = next; prev = prev; size = update s.size p (dec32 (s.size p)) })
          p
          (a ∷ without q rest)
  unfolding Holds distinct mem
  off-Holds next prev n r =
      let (z, l, forth, back, head, size, real, one) = held in
      let to = Linked-forth s.next s.prev a rest z q l inside in
      let apart = prev_apart s.next s.prev a rest z q l one inside in
      let fro : s.prev (s.next q) ≡ q = elim (Bool-cases (q == z)) [
        | inl last ↦ ground arith
        | inr early ↦ Linked-back s.next s.prev a rest z q l (ground arith) (ground arith)
      ] in
      let off = Linked-without s.next s.prev a rest z q l one inside to fro in
      let z' = if q == z then s.prev q else z in
      (
        z',
        Linked-same_all _ _ next prev a (without q rest) z' n r off,
        ground (arith, n z', to, apart),
        ground (arith, r a, fro),
        head,
        ground (arith, size, length-without q rest),
        ground (arith, mem-without 0 q rest),
        ground (arith, mem-without a q rest, distinct-without q rest),
      )

  abbrev without_links : (ℕ → ℕ) → Store
  without_links prev = record s {
    next = next_off s.next s.prev q;
    prev = prev;
    size = update s.size p (dec32 (s.size p));
  }

  -- The links back in the case of the tail, where the code writes that of the head twice.
  abbrev prev_tail : ℕ → ℕ
  prev_tail = update (update (update s.prev a (s.prev (s.prev q))) (s.next q) (s.prev q)) q 0

  remove_inner : s.priority q ≡ p → Removed s p q (a ∷ without q rest)
  unfolding Holds queue_remove distinct mem
  remove_inner mine =
      let (z, l, forth, back, head, size, real, one) = held in
      let to = Linked-forth s.next s.prev a rest z q l inside in
      let apart = prev_apart s.next s.prev a rest z q l one inside in
      let first : (a == q) ≡ false = ground arith in
      let filled : (s.size p == 0) ≡ false = ground arith in
      let single : (s.prev q == q) ≡ false = ground (arith, apart) in
      let follows : (q == s.prev q) ≡ false = ground (arith, apart) in
      let first' : (q == a) ≡ false = ground arith in
      elim (Bool-cases (z == q)) [
        | inr early ↦
            let fro = Linked-back s.next s.prev a rest z q l (ground arith) (ground arith) in
            let alone : (s.next q == q) ≡ false = ground (arith, fro, apart) in
            (
              without_links (prev_off s.next s.prev q),
              rw (mine, filled, alone, head, first, back, early, follows, queue_remove) refl,
              off-Holds _ _ (λ x. refl) (λ x. refl),
              ground arith,
              ground arith,
            )
        | inl last ↦
            let to_head : s.next q ≡ a = ground arith in
            let alone : (s.next q == q) ≡ false = ground (arith, to_head) in
            (
              without_links prev_tail,
              rw (mine, filled, alone, head, first, back, last, head, first', follows, queue_remove)
                  refl,
              off-Holds _ prev_tail (λ x. refl) (λ x. ground (arith, to_head)),
              ground arith,
              ground arith,
            )
      ]

remove_single : (s : Store) (p a : ℕ) → Holds s p (a ∷ []) → s.priority a ≡ p → Removed s p a []
unfolding Holds Linked queue_remove
remove_single s p a (z, e, forth, back, head, size, real, one) mine = (
  clear_single s a p,
  ground (arith, e, forth, back, size, mine),
  (ground arith, ground (arith, size)),
  ground arith,
  ground arith,
)

remove_head :
    (s : Store) (p a b : ℕ) (rest : List ℕ)
    → Holds s p (a ∷ b ∷ rest)
    → s.priority a ≡ p
    → length (a ∷ b ∷ rest) < 2 ^ 32
    → Removed s p a (b ∷ rest)
unfolding Holds Linked queue_remove distinct mem
remove_head s p a b rest (z, (e, f, l), forth, back, head, size, real, one) mine fits =
    let held : Holds s p (a ∷ b ∷ rest) = (z, (e, f, l), forth, back, head, size, real, one) in
    let last = Linked-mem s.next s.prev b rest z l in
    let filled : (s.size p == 0) ≡ false = ground arith in
    let two : (b == a) ≡ false = ground arith in
    let apart : (a == z) ≡ false = ground (arith, last) in
    let apart' : (z == a) ≡ false = ground (arith, last) in
    let same : (a == a) ≡ true = ground arith in
    (
      beheaded s p a b (s.prev a),
      rw (mine, filled, head, e, two, same, back, apart', back, apart, e, queue_remove) refl,
      beheaded-Holds s p a b rest held fits,
      ground arith,
      ground arith,
    )

-- queue_remove of a process of priority p, in a store whose queue p is a ring of a sequence
-- without repeats, shorter than 2 ^ 32, in which the process stands anywhere: it does not panic,
-- queue p is then the ring of the sequence without the process, with the head and the size to
-- match, and the two pointers of the process are NULL.
pub queue_remove-Holds :
    (s : Store) (p q : ℕ) (list : List ℕ)
    → Holds s p list
    → s.priority q ≡ p
    → mem q list ≡ true
    → length list < 2 ^ 32
    → Removed s p q (without q list)
unfolding mem without
queue_remove-Holds s p q [] held mine inside fits = absurd (ground arith)
queue_remove-Holds s p q (a ∷ rest) held mine inside fits = elim (Bool-cases (a == q)) [
  | inr other ↦ rw other (remove_inner s p q a rest held (ground arith) fits mine)
  | inl first ↦
      let it : q ≡ a = ground arith in
      rw (first, it) (remove_first s p a rest held (ground arith) fits)
]
  where
    remove_first :
        (s : Store) (p a : ℕ) (rest : List ℕ)
        → Holds s p (a ∷ rest)
        → s.priority a ≡ p
        → length (a ∷ rest) < 2 ^ 32
        → Removed s p a rest
    remove_first s p a [] held mine fits = remove_single s p a held mine
    remove_first s p a (b ∷ rest) held mine fits = remove_head s p a b rest held mine fits
