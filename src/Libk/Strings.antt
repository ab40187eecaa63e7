-- ===== src/Libk/Strings.antt =====
-- libk/string.c: the comparisons and the searches. A C string is the list of its characters before the
-- NUL, which is what a read at its end gives; a pointer into it is the list from there on.
pub mod Compare
pub mod Find
use ox.Base.{
  ℕ, zero, suc, ◌+◌, ◌-◌, ◌%◌, ◌^◌, Bool, true, false, List, [], ◌∷◌, Option, some, none, ◌==◌, leb,
  if◌then◌else◌,
}

-- `(int)` of a `char`, which is signed, and the difference of two of them.
abbrev pub widened : ℕ → ℕ
widened c = if leb 128 c then 2 ^ 32 - 256 + c else c

abbrev pub difference : ℕ → ℕ → ℕ
difference c d = (widened c + 2 ^ 32 - widened d) % 2 ^ 32

-- `*cs`.
abbrev pub first : List ℕ → ℕ
first [] = 0
first (c ∷ cs) = c

unfoldable pub strcmp : List ℕ → List ℕ → ℕ
strcmp [] [] = 0
strcmp [] (d ∷ ct) = difference 0 d
strcmp (c ∷ cs) [] = difference c 0
strcmp (c ∷ cs) (d ∷ ct) = let rest = strcmp cs ct in if c == d then rest else difference c d

-- The characters where the loop stops are subtracted, also where it stops at n.
pub strncmp : ℕ → List ℕ → List ℕ → ℕ
strncmp zero cs ct = difference (first cs) (first ct)
strncmp (suc n) [] [] = 0
strncmp (suc n) [] (d ∷ ct) = difference 0 d
strncmp (suc n) (c ∷ cs) [] = difference c 0
strncmp (suc n) (c ∷ cs) (d ∷ ct) =
    let rest = strncmp n cs ct in if c == d then rest else difference c d

-- The inner loop of strstr: whether it comes to the end of ct.
pub matches_at : List ℕ → List ℕ → Bool
matches_at cs [] = true
matches_at [] (d ∷ ct) = false
matches_at (c ∷ cs) (d ∷ ct) = if c == d then matches_at cs ct else false

-- The place that strstr points at, from the start of cs, or NULL.
pub strstr : List ℕ → List ℕ → Option ℕ
strstr [] ct = none
strstr (c ∷ cs) ct =
    let rest = strstr cs ct in
    if matches_at (c ∷ cs) ct then some 0 else elim rest [ none ↦ none | some i ↦ some (suc i) ]

pub strchr : List ℕ → ℕ → Option ℕ
strchr [] ch = none
strchr (c ∷ cs) ch =
    let rest = strchr cs ch in
    if c == ch then some 0 else elim rest [ none ↦ none | some i ↦ some (suc i) ]
