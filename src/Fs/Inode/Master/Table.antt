-- ===== src/Fs/Inode/Master/Table.antt =====
-- The entries of the table of mounted file systems in fs/inode.c.
use ox.Base.{
  ℕ, zero, suc, ◌+◌, ◌<◌, ◌≤◌, ◌≡◌, ◌≢◌, refl, inl, inr, ◌==◌, Option, none, some, arith,
  Option-cases, Bool-cases,
}
use ox.Fs.Inode.{inode_nopos, inode_nr_dev}
use ox.Fs.Inode.Master.{
  Master, Volumes, find_dev, master_get, master_alloc, master_free, set_master, zero_master,
}

pub find_dev-some :
    (tab : ℕ → Master) (dev n i j : ℕ)
    → find_dev n i tab dev ≡ some j
    → (i ≤ j) × (j < i + n) × ((tab j).dev ≡ dev) × ((k : ℕ) → i ≤ k → k < j → (tab k).dev ≢ dev)
unfolding find_dev
find_dev-some tab dev zero i j h = absurd (ground arith)
find_dev-some tab dev (suc n) i j h = elim (Bool-cases ((tab i).dev == dev)) [
  | inl here ↦
      let at : i ≡ j = ground arith in
      (omega arith, omega arith, ground arith, λ k lo hi. absurd (omega arith))
  | inr later ↦
      let r = find_dev-some tab dev n (suc i) j (ground arith) in
      (omega (arith, r.0), omega (arith, r.1), r.2, λ k lo hi. ground (arith, r.3 k))
]

pub find_dev-none :
    (tab : ℕ → Master) (dev n i j : ℕ)
    → find_dev n i tab dev ≡ none
    → i ≤ j
    → j < i + n
    → (tab j).dev ≢ dev
unfolding find_dev
find_dev-none tab dev zero i j h lo hi = absurd (omega arith)
find_dev-none tab dev (suc n) i j h lo hi = elim (Bool-cases ((tab i).dev == dev)) [
  | inl here ↦ absurd (ground arith)
  | inr later ↦ ground (arith, find_dev-none tab dev n (suc i) j)
]

-- Only the devices of the entries count.
pub find_dev-same :
    (tab tab' : ℕ → Master) (dev n i : ℕ)
    → ((j : ℕ) → (tab' j).dev ≡ (tab j).dev)
    → find_dev n i tab' dev ≡ find_dev n i tab dev
unfolding find_dev
find_dev-same tab tab' dev zero i same = refl
find_dev-same tab tab' dev (suc n) i same =
    ground (arith, same i, find_dev-same tab tab' dev n (suc i) same)

-- No device has two entries.
abbrev pub IsTable : (ℕ → Master) → Type 0
IsTable tab =
    (i j : ℕ)
    → i < inode_nr_dev
    → j < inode_nr_dev
    → (tab i).dev ≡ (tab j).dev
    → (tab i).dev ≢ inode_nopos
    → i ≡ j

module _ {C : Type 0} (v : Volumes C) (dev : ℕ) (is : IsTable v.tab)
    (real : dev ≢ inode_nopos) where
  -- What an allocation gives: an entry of the device, the others as they were, or a full table.
  abbrev pub Allocated : Option ℕ × Volumes C → Type 0
  Allocated (some i, w) =
      (i < inode_nr_dev)
      × (master_get w dev ≡ some i)
      × IsTable w.tab
      × ((j : ℕ) → j ≢ i → w.tab j ≡ v.tab j)
  Allocated (none, w) =
      (w.tab ≡ v.tab)
      × ((j : ℕ) → j < inode_nr_dev → ((v.tab j).dev ≢ dev) × ((v.tab j).dev ≢ inode_nopos))

  fresh_get :
      (i : ℕ)
      → i < inode_nr_dev
      → ((j : ℕ) → j < inode_nr_dev → (v.tab j).dev ≢ dev)
      → master_get (set_master v i (record (v.tab i) { dev = dev })) dev ≡ some i
  fresh_get i small absent =
      let w = set_master v i (record (v.tab i) { dev = dev }) in
      elim (Option-cases (find_dev inode_nr_dev 0 w.tab dev)) [
        | inl e ↦ absurd (ground (arith, find_dev-none w.tab dev inode_nr_dev 0 i e))
        | inr (j, e) ↦
            let r = find_dev-some w.tab dev inode_nr_dev 0 j e in ground (arith, r.1, r.2, absent j)
      ]

  -- In a table where no device stands twice, for a device number that is not -1: master_alloc
  -- gives the entry that master_get then finds for the device, leaves every other entry as it
  -- was, and still no device stands twice; or it gives none and changes nothing, and then every
  -- entry belongs to another device.
  pub master_alloc-Allocated : Allocated (master_alloc v dev)
  unfolding master_alloc
  master_alloc-Allocated = elim (Option-cases (find_dev inode_nr_dev 0 v.tab dev)) [
    | inr (i, e) ↦
        let r = find_dev-some v.tab dev inode_nr_dev 0 i e in
        rw (e, master_alloc) (omega (arith, r.1), e, is, λ j ne. refl)
    | inl e ↦
        let absent = λ (j : ℕ) (small : j < inode_nr_dev).
          find_dev-none v.tab dev inode_nr_dev 0 j e (omega arith) (omega arith) in
        elim (Option-cases (find_dev inode_nr_dev 0 v.tab inode_nopos)) [
          | inl full ↦
              rw (e, full, master_alloc)
                (
                  refl,
                  λ j small. (
                    absent j small,
                    find_dev-none v.tab inode_nopos inode_nr_dev 0 j full (omega arith)
                        (omega arith),
                  ),
                )
          | inr (i, free) ↦
              let r = find_dev-some v.tab inode_nopos inode_nr_dev 0 i free in
              let small : i < inode_nr_dev = omega (arith, r.1) in
              rw (e, free, master_alloc)
                (
                  small,
                  fresh_get i small absent,
                  λ j k hj hk same used. ground (arith, absent j, absent k, is j k),
                  λ j ne. ground arith,
                )
        ]
  ]

  pub master_free-IsTable :
      IsTable (master_free v dev).tab × (master_get (master_free v dev) dev ≡ none)
  unfolding master_free
  master_free-IsTable = elim (Option-cases (find_dev inode_nr_dev 0 v.tab dev)) [
    | inl e ↦ rw (e, master_free) (is, e)
    | inr (i, e) ↦
        let r = find_dev-some v.tab dev inode_nr_dev 0 i e in
        let w = set_master v i zero_master in
        let absent : (j : ℕ) → j < inode_nr_dev → (w.tab j).dev ≢ dev =
          λ j small same. ground (arith, is i j, r.1, r.2) in
        rw (e, master_free)
          (
            λ j k hj hk same used. ground (arith, is j k),
            elim (Option-cases (find_dev inode_nr_dev 0 w.tab dev)) [
              | inl gone ↦ gone
              | inr (j, found) ↦
                  let q = find_dev-some w.tab dev inode_nr_dev 0 j found in
                  absurd (ground (arith, absent j, q.1, q.2))
            ],
          )
  ]

pub master_free-cache : {C : Type 0} (v : Volumes C) (dev : ℕ) → (master_free v dev).cache ≡ v.cache
unfolding master_free
master_free-cache v dev = elim (Option-cases (find_dev inode_nr_dev 0 v.tab dev)) [
  | inl e ↦ rw (e, master_free) refl
  | inr (i, e) ↦ rw (e, master_free) refl
]
