-- ===== src/Fs/Path/Next.antt =====
-- One call of get_next_path of fs/paths.c.
use ox.Base.{
  ℕ, zero, suc, ◌+◌, ◌-◌, ◌≤◌, ◌<◌, ◌≡◌, refl, sym, ◌∙◌, inl, inr, Bool, false, ◌&&◌, ◌==◌, none,
  some, List, [], ◌∷◌, ◌++◌, update, length, arith, Bool-cases,
}
use ox.Fs.Path.{max_path, slash, dot, buffer_of, get_next_path}
use ox.Fs.Path.Split.{Plain, NoSlash}
use ox.Fs.Path.Buffer.{Holds, head_at, find_slash-some, find_slash-none, find_end_lem}

-- A path is not "." or ".." up to its end if a '/' follows.
abbrev pub dot_ends : ℕ → ℕ → Bool
dot_ends a b = (a == dot) && (b == 0)

abbrev pub dotdot_ends : ℕ → ℕ → ℕ → Bool
dotdot_ends a b c = (a == dot) && ((b == dot) && (c == 0))

pub no_dots :
    (w r : List ℕ)
    → Plain (w ++ (slash ∷ r))
    → let cs = buffer_of (w ++ (slash ∷ r)) in
      (dot_ends (cs 0) (cs 1) ≡ false) × (dotdot_ends (cs 0) (cs 1) (cs 2) ≡ false)
no_dots [] r plain = (refl, refl)
no_dots (a ∷ []) r plain = (ground arith, ground arith)
no_dots (a ∷ b ∷ []) r plain = (ground arith, ground arith)
no_dots (a ∷ b ∷ c ∷ w) r plain = (ground arith, ground arith)

pub ends_at : (w : List ℕ) (j : ℕ) → Plain w → buffer_of w j ≡ 0 → length w ≤ j
ends_at [] j plain e = omega arith
ends_at (c ∷ w) zero plain e = absurd (plain.0 e)
ends_at (c ∷ w) (suc j) plain e = omega (arith, ends_at w j plain.1 e)

module _ (buf : ℕ → ℕ) (i : ℕ) where
  pub next_none : Holds buf i [] → get_next_path buf i ≡ none
  unfolding get_next_path
  next_none h =
      rw (head_at buf i [] h, find_slash-none (max_path - i) buf i [] tt h, head_at buf i [] h) refl

  pub next_more :
      (w r : List ℕ)
      → NoSlash w
      → Plain (w ++ (slash ∷ r))
      → Holds buf i (w ++ (slash ∷ r))
      → length w < max_path - i
      → get_next_path buf i ≡ some (i, i + length w, update buf (i + length w) 0)
  unfolding get_next_path
  next_more w r clear plain h room =
      let (one, two) = no_dots w r plain in
      let z = head_at buf i (w ++ (slash ∷ r)) h in
      rw (z, h 1, h 2, one, two, find_slash-some (max_path - i) buf i w r clear h room) refl

  pub next_last :
      (c : ℕ) (w : List ℕ)
      → NoSlash (c ∷ w)
      → Plain (c ∷ w)
      → Holds buf i (c ∷ w)
      → length (c ∷ w) < suc (max_path - i)
      → (e : ℕ) × (get_next_path buf i ≡ some (i, e, buf)) × (i + length (c ∷ w) ≤ e)
  unfolding get_next_path
  next_last c w clear plain h room =
      let z = head_at buf i (c ∷ w) h in
      let some_char : (c == 0) ≡ false = ground (arith, plain.0) in
      elim (Bool-cases (dot_ends (buf i) (buf (i + 1)))) [
        | inl e ↦
            let end1 : buf (i + 1) ≡ 0 = ground arith in
            (i + 1, rw e refl, omega (arith, ends_at w 0 plain.1 (sym (h 1) ∙ end1)))
        | inr e ↦ elim (Bool-cases (dotdot_ends (buf i) (buf (i + 1)) (buf (i + 2)))) [
          | inl f ↦
              let end2 : buf (i + 2) ≡ 0 = ground arith in
              (i + 2, rw (e, f) refl, omega (arith, ends_at w 1 plain.1 (sym (h 2) ∙ end2)))
          | inr f ↦ (
            i + length (c ∷ w) + 1,
            rw
                (
                  e,
                  f,
                  find_slash-none (max_path - i) buf i (c ∷ w) clear h,
                  z,
                  some_char,
                  find_end_lem (suc (max_path - i)) buf i (c ∷ w) plain h room,
                )
                refl,
            omega arith,
          )
        ]
      ]
