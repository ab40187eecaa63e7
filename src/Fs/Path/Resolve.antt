-- ===== src/Fs/Path/Resolve.antt =====
-- krealpath of fs/krealpath.c for an absolute path.
use ox.Base.{
  ℕ, zero, suc, ◌+◌, ◌≤◌, ◌≡◌, refl, sym, ap, ◌∙◌, inl, inr, true, false, Option, some, List, [],
  ◌∷◌, if◌then◌else◌, length, arith, Bool-cases, ltb,
}
use mathlib.Core.List.{reverse, reverse_aux, append-nil}
use ox.Fs.Inode.{Inode}
use ox.Fs.Path.{
  max_path, max_length, slash, dot, is_dot, is_dotdot, pop, resolve, assemble, real, absolute,
  or_root, real_from, krealpath,
}
use ox.Fs.Path.Split.{split, push, Plain, NoSlash}
use ox.Fs.Path.Walk.{components-split}

-- The words that are left of a path, its last word first, where `skip` more are taken away by the ".."
-- behind them: "." and ".." are not kept, and neither is a word that a ".." takes away.
unfoldable pub kept : List (List ℕ) → ℕ → List (List ℕ)
kept [] skip = []
kept (w ∷ ws) skip =
    if is_dot w
    then kept ws skip
    else if is_dotdot w
    then kept ws (suc skip)
    else elim skip [ zero ↦ w ∷ kept ws zero | suc n ↦ kept ws n ]

abbrev Named : List (List ℕ) → Type 0
Named [] = Unit {0}
Named (w ∷ ws) = (is_dot w ≡ false) × (is_dotdot w ≡ false) × Named ws

kept-Named : (g : List (List ℕ)) → Named g → kept g 0 ≡ g
unfolding kept
kept-Named [] n = refl
kept-Named (w ∷ ws) n = rw (n.0, n.1, kept-Named ws n.2) refl

kept_name :
    (w : List ℕ) (a b : List (List ℕ))
    → ((n : ℕ) → kept a n ≡ kept b n)
    → (n : ℕ)
    → ◌≡◌ {A = List (List ℕ)}
        (elim n [ zero ↦ w ∷ kept a zero | suc m ↦ kept a m ])
        (elim n [ zero ↦ w ∷ kept b zero | suc m ↦ kept b m ])
kept_name w a b h zero = ap (λ t. w ∷ t) (h 0)
kept_name w a b h (suc n) = h n

-- Equal lists of words in front are taken away alike.
kept_under :
    (xs a b : List (List ℕ))
    → ((n : ℕ) → kept a n ≡ kept b n)
    → (n : ℕ) → kept (reverse_aux xs a) n ≡ kept (reverse_aux xs b) n
unfolding kept
kept_under [] a b h n = h n
kept_under (w ∷ xs) a b h m =
    kept_under xs (w ∷ a) (w ∷ b)
      (λ n. elim (Bool-cases (is_dot w)) [
        | inl e ↦ rw e (h n)
        | inr e ↦ elim (Bool-cases (is_dotdot w)) [
          | inl f ↦ rw (e, f) (h (suc n))
          | inr f ↦ rw (e, f) (kept_name w a b h n)
        ]
      ])
      m

-- A ".." takes the word before it away.
kept_dotdot : (g : List (List ℕ)) → Named g → (n : ℕ) → kept g (suc n) ≡ kept (pop g) n
unfolding kept
kept_dotdot [] named n = refl
kept_dotdot (w ∷ ws) named n = rw (named.0, named.1) refl

Named-pop : (g : List (List ℕ)) → Named g → Named (pop g)
Named-pop [] named = tt
Named-pop (w ∷ ws) named = named.2

resolve-kept : (ws g : List (List ℕ)) → Named g → resolve ws g ≡ kept (reverse_aux ws g) 0
unfolding resolve
resolve-kept [] g named = sym (kept-Named g named)
resolve-kept (w ∷ ws) g named = elim (Bool-cases (is_dot w)) [
  | inl e ↦
      rw e (resolve-kept ws g named ∙ kept_under ws g (w ∷ g) (λ n. unfold kept in rw e refl) 0)
  | inr e ↦ elim (Bool-cases (is_dotdot w)) [
    | inl f ↦
        rw (e, f)
          (resolve-kept ws (pop g) (Named-pop g named)
            ∙ kept_under ws (pop g) (w ∷ g)
                (λ n. unfold kept in rw (e, f) (sym (kept_dotdot g named n))) 0)
    | inr f ↦ rw (e, f) (resolve-kept ws (w ∷ g) (e, f, named))
  ]
]

split_word : (c : ℕ) (w : List ℕ) → NoSlash (c ∷ w) → split (c ∷ w) ≡ (c ∷ w) ∷ []
unfolding split push
split_word c [] clear = rw clear.0 refl
split_word c (d ∷ w) clear = rw clear.0 (ap (push c) (split_word d w clear.1))

module _ (read : ℕ → Option Inode) (root n current_dir : ℕ) where
  -- krealpath of an absolute path of at most 253 characters without a NUL: it succeeds without a
  -- read, and gives the words of the path between the '/' with a '/' between each two, or '/' if
  -- this is empty, where '.', '..' and each word that a '..' behind it takes away are left out.
  pub krealpath-kept :
      (path : List ℕ)
      → absolute path ≡ true
      → Plain path
      → length path ≤ max_length
      → krealpath read root n current_dir path
        ≡ some (real (or_root (assemble (kept (reverse (split path)) 0) [])))
  unfolding krealpath real_from
  krealpath-kept path start plain short =
      let (ptrs, buf, done, words) = components-split path plain (omega (arith, short)) in
      let fits : ltb max_path (0 + length path) ≡ false = ground arith in
      let inside : ltb max_length (0 + length path) ≡ false = ground arith in
      rw (start, fits, inside, done, words, resolve-kept (split path) [] tt) refl

  -- krealpath of the path '/../w', for a word w that is not empty, has neither NUL nor '/', is
  -- not '.' or '..' and leaves the path within 253 characters: the result is w alone, which is no
  -- absolute path.
  pub krealpath_escapes :
      (c : ℕ) (cs : List ℕ)
      → let w = c ∷ cs in
        Plain w
        → NoSlash w
        → is_dot w ≡ false
        → is_dotdot w ≡ false
        → length w + 4 ≤ max_length
        → krealpath read root n current_dir (slash ∷ dot ∷ dot ∷ slash ∷ w) ≡ some (real w)
  unfolding assemble
  krealpath_escapes c cs plain clear name name' short =
      let w = c ∷ cs in
      let path = slash ∷ dot ∷ dot ∷ slash ∷ w in
      let words : split path ≡ [] ∷ (dot ∷ dot ∷ []) ∷ w ∷ [] =
        unfold split push in rw (split_word c cs clear) refl in
      let left : kept (reverse (split path)) 0 ≡ w ∷ [] =
        rw words (unfold kept in rw (name, name') refl) in
      krealpath-kept path refl
        (
          (λ e. omega arith),
          ((λ e. omega arith), ((λ e. omega arith), ((λ e. omega arith), plain))),
        )
        (omega arith)
      ∙ rw (left, append-nil) refl
