-- ===== src/Fs/Descriptor/Duplicate.antt =====
-- kdup and kclose of fs/file.c.
use ox.Base.{
  ℕ, zero, suc, ◌+◌, ◌<◌, ◌≤◌, ◌≡◌, ◌≢◌, ◌⊎◌, refl, ap, inl, inr, true, not, ◌&&◌, ◌==◌, Option,
  none, some, update, arith, Bool-cases, Option-cases, minus_one,
}
use mathlib.Core.Path.{fun_ext}
use ox.Fs.Descriptor.{
  Files, FileIo, max_files, emfile, get_file, same_file, find_other, find_null, kdup, kclose,
}

find_null-some :
    (n i : ℕ) (desc : ℕ → Option ℕ) (j : ℕ)
    → find_null n i desc ≡ some j
    → (i ≤ j) × (j < i + n) × (desc j ≡ none) × ((x : ℕ) → i ≤ x → x < j → desc x ≢ none)
unfolding find_null
find_null-some zero i desc j h = absurd (cc)
find_null-some (suc n) i desc j h = elim (Option-cases (desc i)) [
  | inl e ↦
      let at : i ≡ j = ground arith in
      (omega (arith, at), omega (arith, at), rw (← at) e, λ x lo hi. absurd (omega (arith, at)))
  | inr (f, e) ↦
      let (lo, hi, null, earlier) = find_null-some n (suc i) desc j (ground arith) in
      (omega (arith, lo), omega (arith, hi), null, λ x a b none'. ground (arith, earlier x))
]

find_null-none :
    (n i : ℕ) (desc : ℕ → Option ℕ) (x : ℕ)
    → find_null n i desc ≡ none
    → i ≤ x
    → x < i + n
    → desc x ≢ none
unfolding find_null
find_null-none zero i desc x h lo hi = absurd (omega arith)
find_null-none (suc n) i desc x h lo hi = elim (Option-cases (desc i)) [
  | inl e ↦ absurd (ground arith)
  | inr (f, e) ↦ ground (arith, find_null-none n (suc i) desc x)
]

find_other-true :
    (n i : ℕ) (desc : ℕ → Option ℕ) (f fd other : ℕ)
    → i ≤ other
    → other < i + n
    → desc other ≡ some f
    → other ≢ fd
    → find_other n i desc f fd ≡ true
unfolding find_other
find_other-true zero i desc f fd other lo hi at ne = absurd (omega arith)
find_other-true (suc n) i desc f fd other lo hi at ne =
    elim (Bool-cases (same_file (desc i) f && not (i == fd))) [
      | inl here ↦ rw here refl
      | inr later ↦
          rw later (find_other-true n (suc i) desc f fd other (ground arith) (omega arith) at ne)
    ]

module _ {C : Type 0} (io : FileIo C) (now : ℕ) where
  -- A duplicate: the first free descriptor, which is again closed without an access to the device.
  pub record Duplicated (s : Files C) (fd : ℕ) (r : ℕ × Files C) : Type 0 where
    pub small : r.0 < max_files
    pub was_free : s.file_desc r.0 ≡ none
    pub first : (x : ℕ) → x < r.0 → s.file_desc x ≢ none
    pub same : r.1.file_desc r.0 ≡ s.file_desc fd
    pub others : (x : ℕ) → x ≢ r.0 → r.1.file_desc x ≡ s.file_desc x
    pub closing : kclose io now r.1 r.0 ≡ (0, s)

  module _ (s : Files C) (fd f : ℕ) (small : fd < max_files) (at : s.file_desc fd ≡ some f) where
    file_of : get_file s fd ≡ some f
    file_of = ground (arith, at)

    abbrev with_file : ℕ → Files C
    with_file i = record s { file_desc = update s.file_desc i (some f) }

    closing_lem :
        (i : ℕ) → i < max_files → s.file_desc i ≡ none → kclose io now (with_file i) i ≡ (0, s)
    unfolding kclose
    closing_lem i inside null =
        let t = with_file i in
        let apart : fd ≢ i = ground (arith, at, null) in
        let mine : get_file t i ≡ some f = ground arith in
        let yours : t.file_desc fd ≡ some f = ground (arith, at) in
        let found =
          find_other-true max_files 0 t.file_desc f i fd (omega arith) (omega (arith, small)) yours
            apart in
        let back : update t.file_desc i none ≡ s.file_desc = fun_ext (λ x. ground (arith, null)) in
        rw (mine, found, kclose) (ap (λ d. (0, record s { file_desc = d })) back)

    -- For a descriptor below MAX_FILES of an open file: kdup gives the first descriptor that was
    -- free, for the same file, and changes no other, and kclose of it then succeeds and restores
    -- the whole state without an access to the device; or kdup fails with EMFILE and changes
    -- nothing else, and then no descriptor was free.
    pub kdup-Duplicated :
        Duplicated s fd (kdup s fd)
        ⊎ ((kdup s fd ≡ (minus_one, record s { errno = emfile }))
            × ((x : ℕ) → x < max_files → s.file_desc x ≢ none))
    unfolding kdup
    kdup-Duplicated = elim (Option-cases (find_null max_files 0 s.file_desc)) [
      | inl e ↦
          rw (file_of, e, kdup)
            (inr (
              refl,
              λ x hi. find_null-none max_files 0 s.file_desc x e (omega arith) (omega (arith, hi)),
            ))
      | inr (i, e) ↦
          let (lo, hi, null, earlier) = find_null-some max_files 0 s.file_desc i e in
          let inside : i < max_files = omega (arith, hi) in
          rw (file_of, e, kdup)
            (inl (record {
              small = inside;
              was_free = null;
              first = λ x less. earlier x (omega arith) less;
              same = ground (arith, at);
              others = λ x ne. ground arith;
              closing = closing_lem i inside null;
            }))
    ]
