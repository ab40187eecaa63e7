-- ===== src/Fs/Path.antt =====
-- Paths: get_next_path and push_front of fs/paths.c and krealpath of fs/krealpath.c. A buffer of
-- MAX_PATH characters is a function of the index, which is read inside the buffer only: krealpath is
-- none for a path with which the code leaves its buffers. Where a C string is only read or copied it
-- is the list of its characters.
mod Split
mod Buffer
mod Next
pub mod Walk
mod Resolve
pub mod Canonical
mod Tests
use ox.Base.{
  ℕ, zero, suc, ◌+◌, ◌-◌, Bool, true, false, not, ◌&&◌, ◌||◌, ◌==◌, Option, none, some, List, [],
  ◌∷◌, ◌++◌, if◌then◌else◌, ltb, update, length,
}
use ox.Fs.Inode.{Inode}

abbrev pub max_path : ℕ
max_path = 256

-- The longest path that stays inside the buffers: get_next_path looks two characters behind the path.
abbrev pub max_length : ℕ
max_length = 253

abbrev pub enametoolong : ℕ
enametoolong = 36

-- EINVAL of sys/errno.h.
abbrev pub path_einval : ℕ
path_einval = 22

abbrev pub slash : ℕ
slash = b'/'

abbrev pub dot : ℕ
dot = b'.'

-- An array with a string in it, with 0 behind the string up to the end of the array.
abbrev pub buffer_of : List ℕ → ℕ → ℕ
buffer_of [] i = 0
buffer_of (c ∷ cs) zero = c
buffer_of (c ∷ cs) (suc i) = buffer_of cs i

-- The string at an index, of n characters at most.
pub string_at : ℕ → (ℕ → ℕ) → ℕ → List ℕ
string_at zero buf i = []
string_at (suc n) buf i = if buf i == 0 then [] else buf i ∷ string_at n buf (suc i)

-- The first '/' among n characters from i on.
pub find_slash : ℕ → (ℕ → ℕ) → ℕ → Option ℕ
find_slash zero buf i = none
find_slash (suc n) buf i =
    let rest = find_slash n buf (suc i) in if buf i == slash then some i else rest

-- The first NUL among n characters from i on.
pub find_end : ℕ → (ℕ → ℕ) → ℕ → ℕ
find_end zero buf i = i
find_end (suc n) buf i = let rest = find_end n buf (suc i) in if buf i == 0 then i else rest

-- A component: where it starts, the new `*start`, and the buffer.
pub get_next_path : (ℕ → ℕ) → ℕ → Option (ℕ × ℕ × (ℕ → ℕ))
get_next_path buf i =
    if (buf i == dot) && (buf (i + 1) == 0)
    then some (i, i + 1, buf)
    else if (buf i == dot) && ((buf (i + 1) == dot) && (buf (i + 2) == 0))
    then some (i, i + 2, buf)
    else elim (find_slash (max_path - i) buf i) [
      | some k ↦ some (i, k, update buf k 0)
      | none ↦ if buf i == 0 then none else some (i, find_end (suc (max_path - i)) buf i + 1, buf)
    ]

-- The loop over the components, with the pointers that it collects; none is a loop that is cut off.
pub components : ℕ → (ℕ → ℕ) → ℕ → Option (List ℕ × (ℕ → ℕ))
components zero buf start = none
components (suc n) buf start = elim (get_next_path buf start) [
  | none ↦ some ([], buf)
  | some (ptr, end, buf') ↦ elim (components n buf' (end + 1)) [
    | none ↦ none
    | some (ptrs, last) ↦ some (ptr ∷ ptrs, last)
  ]
]

-- The strings that the pointers lead to after the loop.
abbrev pub words_of : (ℕ → ℕ) → List ℕ → List (List ℕ)
words_of buf [] = []
words_of buf (p ∷ ps) = string_at (suc max_path) buf p ∷ words_of buf ps

-- push_front, none for NULL.
abbrev pub push_front : List ℕ → List ℕ → Option (List ℕ)
push_front dst src = if ltb max_path (length dst + length src) then none else some (src ++ dst)

abbrev pub is_dot : List ℕ → Bool
is_dot (c ∷ []) = c == dot
is_dot w = false

abbrev pub is_dotdot : List ℕ → Bool
is_dotdot (c ∷ d ∷ []) = (c == dot) && (d == dot)
is_dotdot w = false

abbrev pub pop : List (List ℕ) → List (List ℕ)
pop [] = []
pop (w ∷ ws) = ws

-- The loop over the components with `gen_path`, its last entry first: each ".." takes the last entry
-- away, also in the inner loop over a row of them.
pub resolve : List (List ℕ) → List (List ℕ) → List (List ℕ)
resolve [] gen = gen
resolve (w ∷ ws) gen =
    resolve ws (if is_dot w then gen else if is_dotdot w then pop gen else w ∷ gen)

-- The components of `gen_path` with a '/' between each two.
pub assemble : List (List ℕ) → List ℕ → List ℕ
assemble [] out = out
assemble (w ∷ []) out = w ++ out
assemble (w ∷ v ∷ ws) out = assemble (v ∷ ws) (slash ∷ (w ++ out))

-- The path, or `*error`.
pub data RealPath : Type 0 where
  real : List ℕ → RealPath
  path_error : ℕ → RealPath

abbrev pub absolute : List ℕ → Bool
absolute [] = false
absolute (c ∷ cs) = c == slash

abbrev pub or_root : List ℕ → List ℕ
or_root [] = slash ∷ []
or_root (c ∷ cs) = c ∷ cs

-- The path from the directory on, once it has the one before it; none is a loop that is cut off, or a
-- path of 254 to 256 characters, which the test lets in and with which the code reads or writes behind
-- its arrays.
pub real_from : List ℕ → List ℕ → Option RealPath
real_from prefix path =
    if ltb max_path (length prefix + length path)
    then some (path_error enametoolong)
    else if ltb max_length (length prefix + length path)
    then none
    else elim (components (max_path + 3) (buffer_of (prefix ++ path)) 0) [
      | none ↦ none
      | some (ptrs, buf) ↦ some (real (or_root (assemble (resolve (words_of buf ptrs) []) [])))
    ]

module _ (read : ℕ → Option Inode) (root : ℕ) where
  -- The path of a directory, put in front of `tmp` on the way up to the root: the path or `*error`.
  pub climb : ℕ → ℕ → List ℕ → Option RealPath
  climb zero block tmp = none
  climb (suc n) block tmp = if block == root then some (real tmp) else elim (read block) [
    | none ↦ some (path_error path_einval)
    | some inode ↦ elim (push_front tmp inode.path) [
      | none ↦ some (path_error path_einval)
      | some named ↦ elim (push_front named (slash ∷ [])) [
        | none ↦ some (path_error path_einval)
        | some rooted ↦ climb n inode.parent rooted
      ]
    ]
  ]

  -- krealpath, with what block_read gives for an inode; none is a loop that is cut off.
  pub krealpath : ℕ → ℕ → List ℕ → Option RealPath
  krealpath n current_dir path =
      if absolute path then real_from [] path else elim (climb n current_dir []) [
        | none ↦ none
        | some (path_error e) ↦ some (path_error e)
        | some (real tmp) ↦
            if ltb max_path (length tmp + 1)
            then some (path_error enametoolong)
            else real_from (tmp ++ (slash ∷ [])) path
      ]
