-- ===== src/Fs/Path/Tests.antt =====
-- krealpath of fs/krealpath.c at paths in a file system without directories.
use ox.Base.{ℕ, ◌≡◌, refl, none, some, [], ◌∷◌, arith}
use mathlib.Core.List.{reverse}
use ox.Fs.Path.{slash, dot, real, or_root, assemble, krealpath}
use ox.Fs.Path.Split.{split}
use ox.Fs.Path.Resolve.{kept, krealpath-kept, krealpath_escapes}
use ox.Base.{List}

-- "/a/./b/../c".
abbrev long_path : List ℕ
long_path = slash ∷ b'a' ∷ slash ∷ dot ∷ slash ∷ b'b' ∷ slash ∷ dot ∷ dot ∷ slash ∷ b'c' ∷ []

krealpath-kept_example :
    krealpath (λ b. none) 4100 5 4100 long_path
    ≡ some (real (or_root (assemble (kept (reverse (split long_path)) 0) [])))
krealpath-kept_example =
    krealpath-kept (λ b. none) 4100 5 4100 long_path refl
      (
        (λ e. omega arith),
        (
          (λ e. omega arith),
          (
            (λ e. omega arith),
            (
              (λ e. omega arith),
              (
                (λ e. omega arith),
                (
                  (λ e. omega arith),
                  (
                    (λ e. omega arith),
                    (
                      (λ e. omega arith),
                      ((λ e. omega arith), ((λ e. omega arith), ((λ e. omega arith), tt))),
                    ),
                  ),
                ),
              ),
            ),
          ),
        ),
      )
      (omega arith)

-- It is "/a/c".
kept_long_path : assemble (kept (reverse (split long_path)) 0) [] ≡ slash ∷ b'a' ∷ slash ∷ b'c' ∷ []
unfolding kept split assemble
kept_long_path = refl

krealpath_escapes_example :
    krealpath (λ b. none) 4100 5 4100 (slash ∷ dot ∷ dot ∷ slash ∷ b'e' ∷ b't' ∷ b'c' ∷ [])
    ≡ some (real (b'e' ∷ b't' ∷ b'c' ∷ []))
krealpath_escapes_example =
    krealpath_escapes (λ b. none) 4100 5 4100 b'e' (b't' ∷ b'c' ∷ [])
      ((λ e. omega arith), ((λ e. omega arith), ((λ e. omega arith), tt)))
      (refl, (refl, (refl, tt))) refl refl (omega arith)
