-- ===== src/Fs/Path/Canonical.antt =====
-- Paths that krealpath of fs/krealpath.c leaves as they are.
use ox.Base.{
  ℕ, ◌+◌, ◌≤◌, ◌≡◌, ◌≢◌, refl, sym, ap, ◌∙◌, true, false, Option, some, List, [], ◌∷◌, ◌++◌, length,
  arith, ltb,
}
use mathlib.Core.List.{reverse_aux, append-nil, append_assoc}
use ox.Fs.Inode.{Inode}
use ox.Fs.Path.{
  max_path, max_length, slash, absolute, is_dot, is_dotdot, resolve, assemble, real, or_root,
  real_from, krealpath,
}
use ox.Fs.Path.Split.{split, push, Plain, NoSlash}
use ox.Fs.Path.Walk.{components-split}

-- The words of a path, each with a '/' in front.
unfoldable pub joined : List (List ℕ) → List ℕ
joined [] = []
joined (w ∷ ws) = slash ∷ (w ++ joined ws)

-- A name of a file: not empty, without NUL and '/', and neither "." nor "..".
pub record IsName (w : List ℕ) : Type 0 where
  pub real : length w ≢ 0
  pub plain : Plain w
  pub clear : NoSlash w
  pub no_dot : is_dot w ≡ false
  pub no_dotdot : is_dotdot w ≡ false

abbrev pub AreNames : List (List ℕ) → Type 0
AreNames [] = Unit {0}
AreNames (w ∷ ws) = IsName w × AreNames ws

unfoldable pub from_root : List (List ℕ) → List (List ℕ)
from_root [] = []
from_root (w ∷ ws) = [] ∷ w ∷ ws

push-from_root : (c : ℕ) (ws : List (List ℕ)) → push c (from_root ws) ≡ (c ∷ []) ∷ ws
unfolding push from_root
push-from_root c [] = refl
push-from_root c (w ∷ ws) = refl

split_front :
    (c : ℕ) (w cs : List ℕ) (ws : List (List ℕ))
    → NoSlash (c ∷ w)
    → split cs ≡ from_root ws
    → split ((c ∷ w) ++ cs) ≡ (c ∷ w) ∷ ws
unfolding split
split_front c [] cs ws clear e = rw (clear.0, e) (push-from_root c ws)
split_front c (d ∷ w) cs ws clear e =
    rw (clear.0, split_front d w cs ws clear.1 e) (unfold push in refl)

pub split-joined : (ws : List (List ℕ)) → AreNames ws → split (joined ws) ≡ from_root ws
unfolding split joined from_root
split-joined [] names = refl
split-joined ([] ∷ ws) (name, names) = absurd (name.real refl)
split-joined ((c ∷ w) ∷ ws) (name, names) =
    ap (λ t. [] ∷ t) (split_front c w (joined ws) ws name.clear (split-joined ws names))

Plain-append : (xs ys : List ℕ) → Plain xs → Plain ys → Plain (xs ++ ys)
Plain-append [] ys p q = q
Plain-append (x ∷ xs) ys p q = (p.0, Plain-append xs ys p.1 q)

pub joined-Plain : (ws : List (List ℕ)) → AreNames ws → Plain (joined ws)
unfolding joined
joined-Plain [] names = tt
joined-Plain (w ∷ ws) (name, names) =
    (λ e. omega (arith, e), Plain-append w (joined ws) name.plain (joined-Plain ws names))

resolve-names : (ws g : List (List ℕ)) → AreNames ws → resolve ws g ≡ reverse_aux ws g
unfolding resolve
resolve-names [] g names = refl
resolve-names (w ∷ ws) g (name, names) =
    rw (name.no_dot, name.no_dotdot) (resolve-names ws (w ∷ g) names)

assemble-reverse_aux :
    (us vs : List (List ℕ)) (v out : List ℕ)
    → assemble (reverse_aux us (v ∷ vs)) out ≡ assemble (v ∷ vs) (joined us ++ out)
unfolding assemble joined
assemble-reverse_aux [] vs v out = refl
assemble-reverse_aux (u ∷ us) vs v out =
    assemble-reverse_aux us (v ∷ vs) u out
    ∙ ap (λ t. assemble (v ∷ vs) (slash ∷ t)) (sym (append_assoc u (joined us) out))

assemble-from_root :
    (w : List ℕ) (ws : List (List ℕ))
    → AreNames (w ∷ ws)
    → assemble (resolve (from_root (w ∷ ws)) []) [] ≡ joined (w ∷ ws)
unfolding from_root resolve
assemble-from_root w ws names =
    ap (λ t. assemble t []) (resolve-names (w ∷ ws) ([] ∷ []) names)
    ∙ assemble-reverse_aux (w ∷ ws) [] [] []
    ∙ unfold assemble in append-nil (joined (w ∷ ws))

module _ (read : ℕ → Option Inode) (root n current_dir : ℕ) where
  -- krealpath of a path that is '/' and a name, once or more, with at most MAX_PATH characters,
  -- where each name has a character, has neither NUL nor '/', and is not '.' or '..': it is the
  -- path itself.
  pub krealpath-joined :
      (w : List ℕ) (ws : List (List ℕ))
      → AreNames (w ∷ ws)
      → length (joined (w ∷ ws)) ≤ max_length
      → krealpath read root n current_dir (joined (w ∷ ws)) ≡ some (real (joined (w ∷ ws)))
  unfolding krealpath real_from
  krealpath-joined w ws names short =
      let (ptrs, buf, done, words) =
        components-split (joined (w ∷ ws)) (joined-Plain (w ∷ ws) names) (omega (arith, short)) in
      let fits : ltb max_path (0 + length (joined (w ∷ ws))) ≡ false = ground arith in
      let inside : ltb max_length (0 + length (joined (w ∷ ws))) ≡ false = ground arith in
      let starts : absolute (joined (w ∷ ws)) ≡ true = unfold joined in refl in
      let stays : or_root (joined (w ∷ ws)) ≡ joined (w ∷ ws) = unfold joined in refl in
      rw
        (
          starts,
          fits,
          inside,
          done,
          words,
          split-joined (w ∷ ws) names,
          assemble-from_root w ws names,
          stays,
        )
        refl
