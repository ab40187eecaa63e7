-- ===== src/Fs/Inode/Master.antt =====
-- The table of mounted file systems in fs/inode.c. The two maps of a master inode have the same
-- fields: a Zone each. A pointer into `master_tab` is an index; `master->imap` and `master->bmap` are
-- the rows of `memory` with that index.
pub mod Table
mod Tests
use ox.Base.{
  ℕ, zero, suc, ◌+◌, Bool, true, false, ◌&&◌, List, [], ◌∷◌, ◌==◌, Option, none, some,
  if◌then◌else◌, update,
}
use ox.Fs.Inode.{inode_nopos, inode_nr_dev}

-- A map of free inodes or of free blocks, and what it is a map of.
pub record Zone : Type 0 where
  pub map_start : ℕ
  pub map_end : ℕ
  pub start : ℕ
  pub end : ℕ
  pub ptr : ℕ
  pub bit : ℕ

pub data Kind : Type 0 where
  inode_kind data_kind : Kind

-- `master_inode_t`.
pub record Master : Type 0 where
  pub magic : ℕ
  pub init_fs : ℕ
  pub block_start : ℕ
  pub imap : Zone
  pub bmap : Zone
  pub inodes : ℕ
  pub blocks : ℕ
  pub dev : ℕ

abbrev pub zone_of : Kind → Master → Zone
zone_of inode_kind m = m.imap
zone_of data_kind m = m.bmap

abbrev pub set_zone : Kind → Zone → Master → Master
set_zone inode_kind z m = record m { imap = z }
set_zone data_kind z m = record m { bmap = z }

abbrev pub is_kind : Kind → Kind → Bool
is_kind inode_kind inode_kind = true
is_kind inode_kind data_kind = false
is_kind data_kind inode_kind = false
is_kind data_kind data_kind = true

-- The static variables, over the state C of the layer of blocks.
pub record Volumes (C : Type 0) : Type 0 where
  pub init_master : Bool
  pub tab : ℕ → Master
  pub memory : Kind → ℕ → ℕ → ℕ
  pub errno : ℕ
  pub cache : C

abbrev pub set_memory : {C : Type 0} → Volumes C → Kind → ℕ → (ℕ → ℕ) → Volumes C
set_memory v kind i bytes = record v {
  memory = λ k j. if is_kind k kind && (j == i) then bytes else v.memory k j;
}

abbrev pub set_master : {C : Type 0} → Volumes C → ℕ → Master → Volumes C
set_master v i m = record v { tab = update v.tab i m }

abbrev zero_zone : Zone
zero_zone = record { map_start = 0; map_end = 0; start = 0; end = 0; ptr = 0; bit = 0 }

-- After `memset`, with no device.
abbrev pub zero_master : Master
zero_master = record {
  magic = 0;
  init_fs = 0;
  block_start = 0;
  imap = zero_zone;
  bmap = zero_zone;
  inodes = 0;
  blocks = 0;
  dev = inode_nopos;
}

unfoldable pub master_init : {C : Type 0} → Volumes C → Volumes C
master_init v =
    if v.init_master
    then v
    else record v { init_master = true; tab = λ i. zero_master; memory = λ k i j. 0 }

-- The first of n entries from i on with the device.
unfoldable pub find_dev : ℕ → ℕ → (ℕ → Master) → ℕ → Option ℕ
find_dev zero i tab dev = none
find_dev (suc n) i tab dev =
    let rest = find_dev n (suc i) tab dev in if (tab i).dev == dev then some i else rest

abbrev pub master_get : {C : Type 0} → Volumes C → ℕ → Option ℕ
master_get v dev = find_dev inode_nr_dev 0 v.tab dev

-- -1 is `none`.
abbrev pub master_get_mem_ptr : {C : Type 0} → Volumes C → ℕ → Option ℕ
master_get_mem_ptr v dev = find_dev inode_nr_dev 0 v.tab dev

unfoldable pub master_alloc : {C : Type 0} → Volumes C → ℕ → Option ℕ × Volumes C
master_alloc v dev = elim (master_get v dev) [
  | some i ↦ (some i, v)
  | none ↦ elim (find_dev inode_nr_dev 0 v.tab inode_nopos) [
    | some i ↦ (some i, set_master v i (record (v.tab i) { dev = dev }))
    | none ↦ (none, v)
  ]
]

pub master_free : {C : Type 0} → Volumes C → ℕ → Volumes C
master_free v dev = elim (master_get v dev) [ some i ↦ set_master v i zero_master | none ↦ v ]

-- `master_dev_tab`: a path, NULL as none, and a device.
pub record Entry : Type 0 where
  pub path : Option (List ℕ)
  pub dev : ℕ

abbrev pub max_dev : ℕ
max_dev = 256

-- `strlen`, 0 of NULL, as a test.
abbrev pub has_path : Entry → Bool
has_path e = elim e.path [ none ↦ false | some p ↦ elim p [ [] ↦ false | c ∷ cs ↦ true ] ]

-- The first of n entries from i on with a path, or with none.
pub find_entry : ℕ → ℕ → (ℕ → Entry) → Bool → Option ℕ
find_entry zero i tab taken = none
find_entry (suc n) i tab taken =
    let rest = find_entry n (suc i) tab taken in
    if has_path (tab i) then (if taken then some i else rest) else if taken then rest else some i

-- -1 is `none`.
pub master_set_dev : (ℕ → Entry) → Option (List ℕ) → ℕ → Option ℕ × (ℕ → Entry)
master_set_dev tab path dev = elim (find_entry max_dev 0 tab false) [
  | some i ↦ (some i, update tab i (record { path = path; dev = dev }))
  | none ↦ (none, tab)
]

-- The path is looked at only after the loop, when the second loop has nothing left.
pub master_get_dev : (ℕ → Entry) → Option (List ℕ) → Option ℕ
master_get_dev tab path = elim (find_entry max_dev 0 tab true) [
  | some i ↦ some (tab i).dev
  | none ↦ none
]
