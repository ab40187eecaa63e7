-- ===== src/Libk/Strings/Find.antt =====
-- strstr of libk/string.c.
use ox.Base.{
  ℕ, zero, suc, ◌<◌, ◌≡◌, refl, true, false, List, [], ◌∷◌, ◌++◌, arith, Bool-cases, inl, inr,
  length, Option, some, none,
}
use ox.Libk.Strings.{matches_at, strstr}

-- The string from a place on.
pub from : ℕ → List ℕ → List ℕ
from zero cs = cs
from (suc i) [] = []
from (suc i) (c ∷ cs) = from i cs

-- ct stands in cs at the place i.
abbrev pub Stands : List ℕ → List ℕ → ℕ → Type 0
Stands cs ct i = (i < length cs) × (rest : List ℕ) × (from i cs ≡ ct ++ rest)

pub matches_at_sound :
    (cs ct : List ℕ) → matches_at cs ct ≡ true → (rest : List ℕ) × (cs ≡ ct ++ rest)
unfolding matches_at
matches_at_sound cs [] m = (cs, refl)
matches_at_sound [] (d ∷ ct) m = absurd (ground arith)
matches_at_sound (c ∷ cs) (d ∷ ct) m =
    let r = matches_at_sound cs ct (ground arith) in (r.0, ground (arith, r.1))

pub matches_at-++ : (ct rest : List ℕ) → matches_at (ct ++ rest) ct ≡ true
unfolding matches_at
matches_at-++ [] rest = refl
matches_at-++ (c ∷ ct) rest = ground (arith, matches_at-++ ct rest)

pub data Found (cs ct : List ℕ) : Option ℕ → Type 0 where
  at : (i : ℕ) → Stands cs ct i → ((j : ℕ) → j < i → ¬ Stands cs ct j) → Found cs ct (some i)
  nowhere : ((j : ℕ) → ¬ Stands cs ct j) → Found cs ct none

not_here : (c : ℕ) (cs ct : List ℕ) → matches_at (c ∷ cs) ct ≡ false → ¬ Stands (c ∷ cs) ct zero
unfolding from
not_here c cs ct no_match (inside, rest, e) =
    let m : matches_at (c ∷ cs) ct ≡ true = rw e (matches_at-++ ct rest) in absurd (ground arith)

next-Found :
    (c : ℕ) (cs ct : List ℕ) (o : Option ℕ)
    → matches_at (c ∷ cs) ct ≡ false
    → Found cs ct o
    → Found (c ∷ cs) ct (elim o [ none ↦ none | some i ↦ some (suc i) ])
unfolding from
next-Found c cs ct o no_match (at i (inside, rest, e) before) =
    at (suc i) (omega arith, rest, e) (λ j less stands. earlier j less stands)
  where
    earlier : (j : ℕ) → j < suc i → ¬ Stands (c ∷ cs) ct j
    earlier zero less stands = not_here c cs ct no_match stands
    earlier (suc j) less (in_range, tail, f) = before j (omega arith) (omega arith, tail, f)
next-Found c cs ct o no_match (nowhere never) = nowhere (λ j stands. anywhere j stands)
  where
    anywhere : (j : ℕ) → ¬ Stands (c ∷ cs) ct j
    anywhere zero stands = not_here c cs ct no_match stands
    anywhere (suc j) (in_range, tail, f) = never j (omega arith, tail, f)

-- strstr of any two strings: it points at the first place inside the first string from which the
-- second one stands there in full, or gives NULL if there is no such place.
pub strstr-Found : (cs ct : List ℕ) → Found cs ct (strstr cs ct)
unfolding strstr from
strstr-Found [] ct = nowhere (λ j s. absurd (omega (arith, s.0)))
strstr-Found (c ∷ cs) ct = elim (Bool-cases (matches_at (c ∷ cs) ct)) [
  | inl match ↦
      let r = matches_at_sound (c ∷ cs) ct match in
      rw match (at zero (omega arith, r.0, r.1) (λ j less stands. absurd (omega arith)))
  | inr no_match ↦ rw no_match (next-Found c cs ct (strstr cs ct) no_match (strstr-Found cs ct))
]
