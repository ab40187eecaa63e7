-- ===== src/Libk/Strings/Compare.antt =====
-- strcmp and strncmp of libk/string.c.
use ox.Base.{ℕ, ◌≡◌, ◌↔◌, refl, Bool, true, List, [], ◌∷◌, ◌++◌, ◌&&◌, ltb, arith, length}
use ox.Libk.Strings.{first, difference, strcmp, strncmp}

-- No NUL among the characters, and all of them bytes.
abbrev pub is_text : List ℕ → Bool
is_text [] = true
is_text (c ∷ cs) = ltb 0 c && ltb c 256 && is_text cs

-- strcmp of two strings of bytes without a NUL inside is 0 exactly if they are the same string.
pub strcmp-zero :
    (cs ct : List ℕ) → is_text cs ≡ true → is_text ct ≡ true → (strcmp cs ct ≡ 0) ↔ (cs ≡ ct)
unfolding strcmp
strcmp-zero [] [] p q = (λ e. refl, λ e. refl)
strcmp-zero [] (d ∷ ct) p q = (λ e. absurd (ground arith), λ e. absurd (ground arith))
strcmp-zero (c ∷ cs) [] p q = (λ e. absurd (ground arith), λ e. absurd (ground arith))
strcmp-zero (c ∷ cs) (d ∷ ct) p q =
    let r = strcmp-zero cs ct (ground arith) (ground arith) in
    (λ e. ground (arith, r.0), λ e. ground (arith, r.1))

-- strncmp of two strings that share their first n characters, given that n: the result is the
-- difference of the characters after those, which n leaves out.
pub strncmp_reads_on :
    (shared cs ct : List ℕ)
    → strncmp (length shared) (shared ++ cs) (shared ++ ct) ≡ difference (first cs) (first ct)
unfolding strncmp
strncmp_reads_on [] cs ct = refl
strncmp_reads_on (c ∷ shared) cs ct = ground (arith, strncmp_reads_on shared cs ct)
