-- ===== src/Fs/Inode/Permission/Bits.antt =====
-- The bits of a permission of fs/inode.c, and the flags of an inode.
use ox.Base.{
  ℕ, zero, suc, ◌*◌, ◌/◌, ◌%◌, ◌^◌, ◌<◌, ◌≡◌, ◌⊎◌, refl, ◌∙◌, ap, Bool, true, false, not, ◌||◌,
  ◌==◌, bit_and, bit_or, arith, ==_iff, [], inl, inr, Bool-cases,
}
use Prim.Native.Nat.{max}
use ox.Bits.{each, each-at}
use ox.Bits.Digits.{digit, digit-lt, digit-bit_or, digit-bit_and, mask-test}
use ox.Fs.Inode.{Inode, invalid_mode, rwx}
use ox.Fs.Inode.Permission.{
  class_flags, inode_get_mode, mode_rounds, inode_get_mode_from_all, inode_set_permissions,
  inode_get_permissions, s_irwxu, s_irusr, s_iwusr, s_ixusr,
}

-- The three flags of a class, from the digits of the permission for the user and of the umask.
abbrev Class : ℕ → ℕ → ℕ × ℕ × ℕ → Type 0
Class perm umask f =
    (f.0 ≡ max (digit 8 perm) (digit 8 umask))
    × (f.1 ≡ max (digit 7 perm) (digit 7 umask))
    × (f.2 ≡ max (digit 6 perm) (digit 6 umask))

user_tests :
    (perm : ℕ)
    → ((bit_and s_irusr perm == 0) ≡ (digit 8 perm == 0))
      × ((bit_and s_iwusr perm == 0) ≡ (digit 7 perm == 0))
      × ((bit_and s_ixusr perm == 0) ≡ (digit 6 perm == 0))
user_tests perm = (mask-test 8 perm, mask-test 7 perm, mask-test 6 perm)

class_lem : (perm umask : ℕ) → Class perm umask (class_flags (inode_get_mode perm umask))
unfolding class_flags inode_get_mode
class_lem perm umask =
    let p = bit_or perm umask in
    let tests = user_tests p in
    let r = digit-bit_or 8 perm umask in
    let w = digit-bit_or 7 perm umask in
    let x = digit-bit_or 6 perm umask in
    let r' = digit-lt 8 p in
    let w' = digit-lt 7 p in
    let x' = digit-lt 6 p in (ground (arith, tests), ground (arith, tests), ground (arith, tests))

shifted :
    (k perm : ℕ) → perm < 2 ^ 26 → digit (suc (suc (suc k))) (perm * 8 % 2 ^ 32) ≡ digit k perm
unfolding digit
shifted k perm small =
    let fits : perm * 8 % 2 ^ 32 / 2 / 2 / 2 ≡ perm = omega arith in ap (digit k) fits

-- The flags of all the classes.
pub record Flags (perm umask : ℕ) (i : Inode) : Type 0 where
  pub user_read : i.user_read ≡ max (digit 8 perm) (digit 8 umask)
  pub user_write : i.user_write ≡ max (digit 7 perm) (digit 7 umask)
  pub user_execute : i.user_execute ≡ max (digit 6 perm) (digit 6 umask)
  pub group_read : i.group_read ≡ max (digit 5 perm) (digit 8 umask)
  pub group_write : i.group_write ≡ max (digit 4 perm) (digit 7 umask)
  pub group_execute : i.group_execute ≡ max (digit 3 perm) (digit 6 umask)
  pub world_read : i.world_read ≡ max (digit 2 perm) (digit 8 umask)
  pub world_write : i.world_write ≡ max (digit 1 perm) (digit 7 umask)
  pub world_execute : i.world_execute ≡ max (digit 0 perm) (digit 6 umask)

-- For a permission below 2^20: each flag that inode_set_permissions stores is set if the
-- permission has its bit or the umask has the bit of the same operation for the user. So the
-- umask grants, and its bits for the group and for others do not count.
pub inode_set_permissions-Flags :
    (i : Inode) (perm umask : ℕ)
    → perm < 2 ^ 20
    → Flags perm umask (inode_set_permissions i perm umask)
unfolding inode_set_permissions
inode_set_permissions-Flags i perm umask small =
    let group = perm * 8 % 2 ^ 32 in
    let world = group * 8 % 2 ^ 32 in
    let u = class_lem perm umask in
    let g = class_lem group umask in
    let w = class_lem world umask in
    let gs = λ (k : ℕ). shifted k perm (omega arith) in
    let ws = λ (k : ℕ). shifted (suc (suc (suc k))) group (omega arith) ∙ gs k in
    record {
      user_read = u.0;
      user_write = u.1;
      user_execute = u.2;
      group_read = g.0 ∙ ap (λ d. max d (digit 8 umask)) (gs 5);
      group_write = g.1 ∙ ap (λ d. max d (digit 7 umask)) (gs 4);
      group_execute = g.2 ∙ ap (λ d. max d (digit 6 umask)) (gs 3);
      world_read = w.0 ∙ ap (λ d. max d (digit 8 umask)) (ws 2);
      world_write = w.1 ∙ ap (λ d. max d (digit 7 umask)) (ws 1);
      world_execute = w.2 ∙ ap (λ d. max d (digit 6 umask)) (ws 0);
    }

pub mode_rounds_lem :
    (n perm : ℕ) → (mode_rounds n perm ≡ rwx) ⊎ (mode_rounds n perm ≡ invalid_mode)
unfolding mode_rounds digit
mode_rounds_lem zero perm = inr refl
mode_rounds_lem (suc n) perm =
    let later = mode_rounds_lem n (perm * 8 % 2 ^ 32) in
    elim (Bool-cases (bit_and s_irwxu perm == 0)) [
      | inr some_bit ↦ inl (ground (arith, some_bit))
      | inl no_bit ↦
          let e : bit_and s_irwxu perm ≡ 0 = ground arith in
          let read = digit-bit_and 8 s_irwxu perm in
          let write = digit-bit_and 7 s_irwxu perm in
          let execute = digit-bit_and 6 s_irwxu perm in
          let no_read : digit 8 perm ≡ 0 = omega (arith, digit-lt 8 perm, read, ap (digit 8) e) in
          let no_write : digit 7 perm ≡ 0 = omega (arith, digit-lt 7 perm, write, ap (digit 7) e) in
          let no_execute : digit 6 perm ≡ 0 =
            omega (arith, digit-lt 6 perm, execute, ap (digit 6) e) in
          ground (arith, later, user_tests perm)
    ]

-- Only whether some permission of some class is set matters to the mode that is found.
pub inode_get_mode_from_all_lem :
    (perm umask : ℕ)
    → (inode_get_mode_from_all perm umask ≡ rwx)
      ⊎ (inode_get_mode_from_all perm umask ≡ invalid_mode)
unfolding inode_get_mode_from_all
inode_get_mode_from_all_lem perm umask = mode_rounds_lem 3 (bit_or perm umask)

-- An inode of no kind.
abbrev pub IsPlain : Inode → Type 0
IsPlain i = (i.is_symlink ≡ 0) × (i.is_directory ≡ 0) × (i.is_hardlink ≡ 0) × (i.is_file ≡ 0)

abbrev blank : Inode
blank = record {
  user_read = 0;
  user_write = 0;
  user_execute = 0;
  group_read = 0;
  group_write = 0;
  group_execute = 0;
  world_read = 0;
  world_write = 0;
  world_execute = 0;
  is_directory = 0;
  is_device = 0;
  is_file = 0;
  is_symlink = 0;
  is_hardlink = 0;
  create_time = 0;
  modified_time = 0;
  accessed_time = 0;
  self = 0;
  parent = 0;
  size = 0;
  pos = 0;
  current = 0;
  current_parent = 0;
  iblock = 0;
  dev = 0;
  o_mode = 0;
  group = 0;
  owner = 0;
  refcount = 0;
  path = [];
  next = 0;
}

blank_row : ℕ → Bool
blank_row perm = inode_get_permissions (inode_set_permissions blank perm 0) == perm

blank_table : each blank_row 512 ≡ true
unfolding each blank_row inode_get_permissions inode_set_permissions class_flags inode_get_mode
blank_table = refl

pub inode_get_permissions-inode_set_permissions :
    (i : Inode) (perm : ℕ)
    → perm < 512
    → IsPlain i
    → inode_get_permissions (inode_set_permissions i perm 0) ≡ perm
unfolding blank_row inode_get_permissions inode_set_permissions
inode_get_permissions-inode_set_permissions i perm small (link, directory, hard, file) =
    let row = each-at blank_row 512 perm blank_table small in
    rw (link, directory, hard, file)
      ((==_iff (inode_get_permissions (inode_set_permissions blank perm 0)) perm).0 row)

-- The mode of a file with no bits for the umask.
pub file_mode :
    (i : Inode) (perm : ℕ)
    → perm < 512
    → (i.is_symlink == 0) ≡ true
    → (i.is_directory == 0) ≡ true
    → (i.is_file == 0) ≡ false
    → inode_get_permissions (inode_set_permissions i perm 0) ≡ bit_or perm 32768
unfolding blank_row inode_get_permissions inode_set_permissions
file_mode i perm small link directory file =
    let row = each-at blank_row 512 perm blank_table small in
    let link' : i.is_symlink ≡ 0 = (==_iff i.is_symlink 0).0 link in
    let directory' : i.is_directory ≡ 0 = (==_iff i.is_directory 0).0 directory in
    let kind : (not (i.is_hardlink == 0) || not (i.is_file == 0)) ≡ true = ground (arith, file) in
    rw (link', directory', kind)
      (ap (λ k. bit_or k 32768)
        ((==_iff (inode_get_permissions (inode_set_permissions blank perm 0)) perm).0 row))

-- The mode looks at neither the owner nor the time of the last change.
pub inode_get_permissions_lem :
    (i : Inode) (now owner group : ℕ)
    → inode_get_permissions (record i { modified_time = now; owner = owner; group = group })
      ≡ inode_get_permissions i
unfolding inode_get_permissions
inode_get_permissions_lem i now owner group = refl
