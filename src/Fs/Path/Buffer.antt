-- ===== src/Fs/Path/Buffer.antt =====
-- Strings in the buffers of fs/paths.c, and the searches in them.
use ox.Base.{
  ℕ, zero, suc, ◌+◌, ◌≤◌, ◌<◌, ◌≡◌, refl, ap, ◌∙◌, false, ◌==◌, none, some, List, [], ◌∷◌, ◌++◌,
  length, arith,
}
use ox.Fs.Path.{slash, buffer_of, string_at, find_slash, find_end}
use ox.Fs.Path.Split.{Plain, NoSlash}

-- A buffer has a string from an index on, with zeros behind it.
abbrev pub Holds : (ℕ → ℕ) → ℕ → List ℕ → Type 0
Holds buf i cs = (j : ℕ) → buf (i + j) ≡ buffer_of cs j

pub Holds-tail : (buf : ℕ → ℕ) (i c : ℕ) (cs : List ℕ) → Holds buf i (c ∷ cs) → Holds buf (suc i) cs
Holds-tail buf i c cs h j = let e : suc i + j ≡ i + suc j = omega arith in ap buf e ∙ h (suc j)

pub head_at : (buf : ℕ → ℕ) (i : ℕ) (cs : List ℕ) → Holds buf i cs → buf i ≡ buffer_of cs 0
head_at buf i cs h = let e : i ≡ i + 0 = omega arith in ap buf e ∙ h 0

-- Up to the end of w alone.
abbrev pub Starts : (ℕ → ℕ) → ℕ → List ℕ → Type 0
Starts buf i w = (j : ℕ) → j ≤ length w → buf (i + j) ≡ buffer_of w j

pub Starts-tail : (buf : ℕ → ℕ) (i c : ℕ) (w : List ℕ) → Starts buf i (c ∷ w) → Starts buf (suc i) w
Starts-tail buf i c w h j small =
    let e : suc i + j ≡ i + suc j = omega arith in ap buf e ∙ h (suc j) (omega arith)

pub string_at_lem :
    (n : ℕ) (buf : ℕ → ℕ) (i : ℕ) (w : List ℕ)
    → Plain w
    → Starts buf i w
    → length w < n
    → string_at n buf i ≡ w
unfolding string_at
string_at_lem zero buf i w plain h room = elim room [ ]
string_at_lem (suc n) buf i [] plain h room =
    let e : i ≡ i + 0 = omega arith in
    let z : buf i ≡ 0 = ap buf e ∙ h 0 (omega arith) in ground (arith, z)
string_at_lem (suc n) buf i (c ∷ w) plain h room =
    let e : i ≡ i + 0 = omega arith in
    let z : buf i ≡ c = ap buf e ∙ h 0 (omega arith) in
    let some_char : (c == 0) ≡ false = ground (arith, plain.0) in
    rw
      (
        z,
        some_char,
        string_at_lem n buf (suc i) w plain.1 (Starts-tail buf i c w h) (omega (arith, room)),
      )
      refl

pub find_slash-some :
    (n : ℕ) (buf : ℕ → ℕ) (i : ℕ) (w r : List ℕ)
    → NoSlash w
    → Holds buf i (w ++ (slash ∷ r))
    → length w < n
    → find_slash n buf i ≡ some (i + length w)
unfolding find_slash
find_slash-some zero buf i w r clear h room = elim room [ ]
find_slash-some (suc n) buf i [] r clear h room =
    let e : i + 0 ≡ i = omega arith in rw (head_at buf i (slash ∷ r) h, e) refl
find_slash-some (suc n) buf i (c ∷ w) r clear h room =
    let e : suc i + length w ≡ i + suc (length w) = omega arith in
    rw (head_at buf i (c ∷ (w ++ (slash ∷ r))) h, clear.0)
      (find_slash-some n buf (suc i) w r clear.1 (Holds-tail buf i c (w ++ (slash ∷ r)) h)
          (omega (arith, room))
        ∙ ap some e)

pub find_slash-none :
    (n : ℕ) (buf : ℕ → ℕ) (i : ℕ) (w : List ℕ)
    → NoSlash w
    → Holds buf i w
    → find_slash n buf i ≡ none
unfolding find_slash
find_slash-none zero buf i w clear h = refl
find_slash-none (suc n) buf i [] clear h =
    let e : (j : ℕ) → suc i + j ≡ i + suc j = λ j. omega arith in
    rw (head_at buf i [] h) (find_slash-none n buf (suc i) [] tt (λ j. ap buf (e j) ∙ h (suc j)))
find_slash-none (suc n) buf i (c ∷ w) clear h =
    rw (head_at buf i (c ∷ w) h, clear.0)
      (find_slash-none n buf (suc i) w clear.1 (Holds-tail buf i c w h))

pub find_end_lem :
    (n : ℕ) (buf : ℕ → ℕ) (i : ℕ) (w : List ℕ)
    → Plain w
    → Holds buf i w
    → length w < n
    → find_end n buf i ≡ i + length w
unfolding find_end
find_end_lem zero buf i w plain h room = elim room [ ]
find_end_lem (suc n) buf i [] plain h room =
    let e : i + 0 ≡ i = omega arith in rw (head_at buf i [] h, e) refl
find_end_lem (suc n) buf i (c ∷ w) plain h room =
    let e : suc i + length w ≡ i + suc (length w) = omega arith in
    let some_char : (c == 0) ≡ false = ground (arith, plain.0) in
    rw (head_at buf i (c ∷ w) h, some_char)
      (find_end_lem n buf (suc i) w plain.1 (Holds-tail buf i c w h) (omega (arith, room)) ∙ e)

pub Plain-parts : (w r : List ℕ) → Plain (w ++ (slash ∷ r)) → Plain w × Plain r
Plain-parts [] r plain = (tt, plain.1)
Plain-parts (c ∷ w) r plain = let rest = Plain-parts w r plain.1 in ((plain.0, rest.0), rest.1)

pub length-parts : (w r : List ℕ) → length (w ++ (slash ∷ r)) ≡ length w + suc (length r)
length-parts [] r = omega arith
length-parts (c ∷ w) r = omega (arith, length-parts w r)

pub buffer_of-left :
    (w r : List ℕ) (j : ℕ) → j < length w → buffer_of (w ++ (slash ∷ r)) j ≡ buffer_of w j
buffer_of-left [] r j small = elim small [ ]
buffer_of-left (c ∷ w) r zero small = refl
buffer_of-left (c ∷ w) r (suc j) small = buffer_of-left w r j (omega arith)

pub buffer_of-right :
    (w r : List ℕ) (j : ℕ) → buffer_of (w ++ (slash ∷ r)) (suc (length w + j)) ≡ buffer_of r j
buffer_of-right [] r j = let e : 0 + j ≡ j = omega arith in ap (buffer_of r) e
buffer_of-right (c ∷ w) r j =
    let e : suc (length w) + j ≡ suc (length w + j) = omega arith in
    ap (buffer_of (w ++ (slash ∷ r))) e ∙ buffer_of-right w r j

pub buffer_of-far : (w : List ℕ) (j : ℕ) → length w ≤ j → buffer_of w j ≡ 0
buffer_of-far [] j far = refl
buffer_of-far (c ∷ w) zero far = elim far [ ]
buffer_of-far (c ∷ w) (suc j) far = buffer_of-far w j (omega arith)

pub buffer_of-end : (w : List ℕ) → buffer_of w (length w) ≡ 0
buffer_of-end [] = refl
buffer_of-end (c ∷ w) = buffer_of-end w
