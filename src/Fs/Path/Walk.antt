-- ===== src/Fs/Path/Walk.antt =====
-- The loop over get_next_path of fs/paths.c splits a path at each '/'.
use ox.Base.{
  ℕ, zero, suc, ◌+◌, ◌-◌, ◌≤◌, ◌<◌, ◌≡◌, refl, sym, ap, ◌∙◌, inl, inr, true, false, ◌==◌, none,
  some, List, [], ◌∷◌, ◌++◌, update, length, arith, Bool-cases, ==_iff,
}
use mathlib.Core.Path.{subst}
use ox.Fs.Path.{max_path, slash, buffer_of, get_next_path, components, words_of}
use ox.Fs.Path.Split.{split, Plain, NoSlash, Parts, split-Parts, empty, last, more}
use ox.Fs.Path.Buffer.{
  Holds, Starts, string_at_lem, Plain-parts, length-parts, buffer_of-left, buffer_of-right,
  buffer_of-far, buffer_of-end,
}
use ox.Fs.Path.Next.{next_none, next_more, next_last}

-- The loop over the components of a path in a buffer from i on.
abbrev pub Walked : ℕ → (ℕ → ℕ) → ℕ → List (List ℕ) → Type 0
Walked n buf i ws =
    (ptrs : List ℕ) × (final : ℕ → ℕ) × (components n buf i ≡ some (ptrs, final))
    × (words_of final ptrs ≡ ws)
    × ((j : ℕ) → j < i → final j ≡ buf j)

pub components-none :
    (n : ℕ) (buf : ℕ → ℕ) (i : ℕ)
    → get_next_path buf i ≡ none
    → components (suc n) buf i ≡ some ([], buf)
unfolding components
components-none n buf i g = rw (g, components) refl

pub components-some :
    (n : ℕ) (buf b final : ℕ → ℕ) (i p e : ℕ) (ptrs : List ℕ)
    → get_next_path buf i ≡ some (p, e, b)
    → components n b (e + 1) ≡ some (ptrs, final)
    → components (suc n) buf i ≡ some (p ∷ ptrs, final)
unfolding components
components-some n buf b final i p e ptrs g d = rw (g, components, d, components) refl

-- The buffer behind the word and its '/'.
pub Holds-rest :
    (buf : ℕ → ℕ) (i : ℕ) (w r : List ℕ)
    → Holds buf i (w ++ (slash ∷ r))
    → Holds (update buf (i + length w) 0) (i + length w + 1) r
Holds-rest buf i w r h j =
    let e : i + length w + 1 + j ≡ i + suc (length w + j) = omega arith in
    let other : (i + suc (length w + j) == i + length w) ≡ false = ground arith in
    ap (update buf (i + length w) 0) e ∙ (rw other (h (suc (length w + j)) ∙ buffer_of-right w r j))

-- The word itself, once a NUL stands in place of the '/'.
pub Starts-word :
    (buf : ℕ → ℕ) (i : ℕ) (w r : List ℕ)
    → Holds buf i (w ++ (slash ∷ r))
    → Starts (update buf (i + length w) 0) i w
Starts-word buf i w r h j small = elim (Bool-cases (j == length w)) [
  | inl e ↦
      let same : j ≡ length w = (==_iff _ _).0 e in
      let at : (i + j == i + length w) ≡ true = ground (arith, same) in
      rw at (sym (ap (buffer_of w) same ∙ buffer_of-end w))
  | inr e ↦
      let other : (i + j == i + length w) ≡ false = ground arith in
      let inside : j < length w = ground arith in rw other (h j ∙ buffer_of-left w r j inside)
]

pub walk_more :
    (n : ℕ) (buf : ℕ → ℕ) (i : ℕ) (w r : List ℕ) (us : List (List ℕ))
    → NoSlash w
    → Plain (w ++ (slash ∷ r))
    → Holds buf i (w ++ (slash ∷ r))
    → i + length w < max_path
    → Walked n (update buf (i + length w) 0) (i + length w + 1) us
    → Walked (suc n) buf i (w ∷ us)
walk_more n buf i w r us clear plain h room (ptrs, final, done, words, kept) =
    let word : Starts final i w =
      λ j small. kept (i + j) (omega arith) ∙ Starts-word buf i w r h j small in
    (
      i ∷ ptrs,
      final,
      components-some n buf (update buf (i + length w) 0) final i i (i + length w) ptrs
          (next_more buf i w r clear plain h (omega arith)) done,
      rw
          (
            string_at_lem (suc max_path) final i w (Plain-parts w r plain).0 word (omega arith),
            words,
          )
          refl,
      λ j small.
          let other : (j == i + length w) ≡ false = ground arith in
          kept j (omega arith) ∙ rw other refl,
    )

pub walk_last :
    (n : ℕ) (buf : ℕ → ℕ) (i c : ℕ) (w : List ℕ)
    → NoSlash (c ∷ w)
    → Plain (c ∷ w)
    → Holds buf i (c ∷ w)
    → i + length (c ∷ w) ≤ max_path
    → Walked (suc (suc n)) buf i ((c ∷ w) ∷ [])
walk_last n buf i c w clear plain h room =
    let (e, next, far) = next_last buf i c w clear plain h (omega arith) in
    let behind : Holds buf (e + 1) [] = λ j.
      let at : e + 1 + j ≡ i + (e + 1 + j - i) = omega arith in
      ap buf at
      ∙ (h (e + 1 + j - i) ∙ buffer_of-far (c ∷ w) (e + 1 + j - i) (omega (arith, far))) in
    let word : Starts buf i (c ∷ w) = λ j small. h j in
    (
      i ∷ [],
      buf,
      components-some (suc n) buf buf buf i i e [] next
          (components-none n buf (e + 1) (next_none buf (e + 1) behind)),
      rw (string_at_lem (suc max_path) buf i (c ∷ w) plain word (omega arith)) refl,
      λ j small. refl,
    )

pub components_parts :
    (n : ℕ) (buf : ℕ → ℕ) (i : ℕ) (cs : List ℕ) (ws : List (List ℕ))
    → Parts cs ws
    → Plain cs
    → Holds buf i cs
    → i + length cs ≤ max_path
    → length cs + 1 < n
    → Walked n buf i ws
components_parts zero buf i cs ws parts plain h room fuel = elim fuel [ ]
components_parts (suc zero) buf i cs ws parts plain h room fuel = absurd (omega (arith, fuel))
components_parts (suc (suc n)) buf i cs ws (empty e f) plain h room fuel = (
  [],
  buf,
  components-none (suc n) buf i (next_none buf i (subst (Holds buf i) e h)),
  sym f,
  λ j small. refl,
)
components_parts (suc (suc n)) buf i cs ws (last c w clear e f) plain h room fuel = rw f (
    walk_last n buf i c w clear (subst Plain e plain) (subst (Holds buf i) e h)
      (omega (arith, ap length e)))
components_parts (suc (suc n)) buf i cs ws (more w r us clear e f rest) plain h room fuel =
    let h' : Holds buf i (w ++ (slash ∷ r)) = subst (Holds buf i) e h in
    let plain' : Plain (w ++ (slash ∷ r)) = subst Plain e plain in
    let size : length cs ≡ length w + suc (length r) = ap length e ∙ length-parts w r in
    rw f (
      walk_more (suc n) buf i w r us clear plain' h' (omega (arith, size)) (
        components_parts (suc n) (update buf (i + length w) 0) (i + length w + 1) r us rest
          (Plain-parts w r plain').1 (Holds-rest buf i w r h') (omega (arith, size))
          (omega (arith, size))))

pub buffer_of-Holds : (cs : List ℕ) → Holds (buffer_of cs) 0 cs
buffer_of-Holds cs j = let e : 0 + j ≡ j = omega arith in ap (buffer_of cs) e

-- The components of a path in a buffer are its words.
pub components-split :
    (cs : List ℕ)
    → Plain cs
    → length cs ≤ max_path
    → (ptrs : List ℕ) × (final : ℕ → ℕ) × (components (max_path + 3) (buffer_of cs) 0
        ≡ some (ptrs, final))
      × (words_of final ptrs ≡ split cs)
components-split cs plain short =
    let (ptrs, final, done, words, kept) =
      components_parts (max_path + 3) (buffer_of cs) 0 cs (split cs) (split-Parts cs) plain
        (buffer_of-Holds cs) (omega arith) (omega arith) in
    (ptrs, final, done, words)
