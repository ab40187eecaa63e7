-- ===== src/Fs/Path/Split.antt =====
-- The words of a path, and how a path is made of them.
use ox.Base.{
  ℕ, ◌≡◌, ◌≢◌, refl, ap, inl, inr, false, ◌==◌, List, [], ◌∷◌, ◌++◌, if◌then◌else◌, Bool-cases,
  ==_iff,
}
use ox.Fs.Path.{slash}

-- The words between the '/' of a path; behind the last '/' there is no empty one.
unfoldable pub push : ℕ → List (List ℕ) → List (List ℕ)
push c [] = (c ∷ []) ∷ []
push c (w ∷ ws) = (c ∷ w) ∷ ws

unfoldable pub split : List ℕ → List (List ℕ)
unfolding push
split [] = []
split (c ∷ cs) = if c == slash then [] ∷ split cs else push c (split cs)

-- No NUL, and no '/'.
abbrev pub Plain : List ℕ → Type 0
Plain [] = Unit {0}
Plain (c ∷ cs) = (c ≢ 0) × Plain cs

abbrev pub NoSlash : List ℕ → Type 0
NoSlash [] = Unit {0}
NoSlash (c ∷ cs) = ((c == slash) ≡ false) × NoSlash cs

pub data Parts : List ℕ → List (List ℕ) → Type 0 where
  empty : {cs : List ℕ} {ws : List (List ℕ)} → cs ≡ [] → ws ≡ [] → Parts cs ws
  last :
      {cs : List ℕ} {ws : List (List ℕ)} (c : ℕ) (w : List ℕ)
      → NoSlash (c ∷ w)
      → cs ≡ c ∷ w
      → ws ≡ (c ∷ w) ∷ []
      → Parts cs ws
  more :
      {cs : List ℕ} {ws : List (List ℕ)} (w r : List ℕ) (us : List (List ℕ))
      → NoSlash w
      → cs ≡ w ++ (slash ∷ r)
      → ws ≡ w ∷ us
      → Parts r us
      → Parts cs ws

pub Parts-push :
    {cs : List ℕ} {ws : List (List ℕ)} (c : ℕ)
    → (c == slash) ≡ false
    → Parts cs ws
    → Parts (c ∷ cs) (push c ws)
unfolding push
Parts-push c plain (empty e f) = last c [] (plain, tt) (ap (λ t. c ∷ t) e) (ap (push c) f)
Parts-push c plain (last d w clear e f) =
    last c (d ∷ w) (plain, clear) (ap (λ t. c ∷ t) e) (ap (push c) f)
Parts-push c plain (more w r us clear e f rest) =
    more (c ∷ w) r us (plain, clear) (ap (λ t. c ∷ t) e) (ap (push c) f) rest

pub split-Parts : (cs : List ℕ) → Parts cs (split cs)
unfolding split
split-Parts [] = empty refl refl
split-Parts (c ∷ cs) = elim (Bool-cases (c == slash)) [
  | inl e ↦
      rw e
        (more [] cs (split cs) tt (ap (λ d. d ∷ cs) ((==_iff c slash).0 e)) refl (split-Parts cs))
  | inr e ↦ rw e (Parts-push c e (split-Parts cs))
]
