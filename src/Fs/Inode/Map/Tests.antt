-- ===== src/Fs/Inode/Map/Tests.antt =====
-- The maps of fs/inode.c on a small file system.
use ox.Base.{
  ℕ, ◌≡◌, ◌⊎◌, refl, arith, inl, inr, Bool-cases, ◌==◌, is_negative, true, false, none, some,
}
use ox.Fs.Bitmap.{bit_get}
use ox.Fs.Inode.{InodeRtvl, inode_ok, inode_fail, inode_nopos}
use ox.Fs.Inode.Master.{data_kind, Volumes, find_dev, master_get}
use ox.Fs.Inode.Device.Ram.{Ram, ram_io, ram_io-IsBlockIo, small_layout, small_volume, small_map}
use ox.Fs.Inode.Map.{
  zone, begin, advance, take, get_loop, get_at, get_block, inode_get_data_block,
  inode_free_data_block,
}
use ox.Fs.Inode.Map.Bound.{IsReady, get_block-some}
use ox.Fs.Inode.Map.Fit.{IsFirst, Chosen, get_block-Chosen}
use ox.Fs.Inode.Map.Cycle.{
  IsMounted, Given, get_block-Given, Released, get_block-free_block, free_block-get_block,
  free_block-lost,
}

small_volume-found : (dev : ℕ) → dev ≡ 1 → master_get small_volume dev ≡ some 0
unfolding find_dev
small_volume-found dev e = rw e refl

only_entry : (i : ℕ) → master_get small_volume 1 ≡ some i → i ≡ 0
only_entry i h = ground (arith, small_volume-found 1)

small_volume-IsReady : (i : ℕ) → i ≡ 0 → IsReady data_kind i small_volume
small_volume-IsReady i e = rw e (
  record { some_block = omega arith; begins = omega arith; last = omega arith },
  omega arith,
  omega arith,
  λ ne. omega arith,
)

small_volume-IsMounted : IsMounted data_kind 0 1 small_volume
small_volume-IsMounted = record {
  found = small_volume-found 1 refl;
  ready = small_volume-IsReady 0 refl;
  numbered = omega arith;
  bytes = λ i. ground arith;
}

plain_device : is_negative 1 ≡ false
plain_device = refl

abbrev after : Volumes Ram
after = elim (inode_get_data_block ram_io small_layout 4 small_volume 1 0) [
  | some r ↦ r.2
  | none ↦ small_volume
]

got : inode_get_data_block ram_io small_layout 4 small_volume 1 0 ≡ some (inode_ok, 5008, after)
unfolding get_block get_at begin get_loop take advance find_dev bit_get
got = refl

-- Bits 6 and 7 of the map are set, 8 is clear.
small_map-IsFirst : IsFirst small_map 6 8
unfolding bit_get
small_map-IsFirst =
    let six : bit_get small_map 6 ≡ 1 = refl in
    let seven : bit_get small_map 7 ≡ 1 = refl in
    record {
      from = omega arith;
      small = omega arith;
      clear = refl;
      earlier = λ x lo hi clear. elim (Bool-cases (x == 6)) [
        | inl e ↦ absurd (ground (arith, six, clear))
        | inr e ↦ absurd (ground (arith, seven, clear))
      ];
    }

get_block-some_example :
    (r : InodeRtvl × ℕ × Volumes Ram) × (inode_get_data_block ram_io small_layout 2049 small_volume
        1 0
      ≡ some r)
get_block-some_example =
    get_block-some ram_io small_layout data_kind small_volume 1 0 2049
      (λ i h. small_volume-IsReady i (only_entry i h)) (λ i h. rw (only_entry i h) (omega arith))

get_block-Chosen_example :
    (r : InodeRtvl × ℕ × Volumes Ram) × (inode_get_data_block ram_io small_layout 4 small_volume 1 0
      ≡ some r)
    × Chosen data_kind 0 4098 8 small_volume r
get_block-Chosen_example =
    get_block-Chosen ram_io small_layout data_kind 0 1 small_volume 0 8 4
      (small_volume-found 1 refl) (omega arith) small_map-IsFirst (omega arith)

get_block-Given_example : Given ram_io data_kind 0 1 small_volume 5008 after
get_block-Given_example =
    get_block-Given ram_io ram_io-IsBlockIo small_layout data_kind 0 1 small_volume
      small_volume-IsMounted 0 4 5008 after got

get_block-free_block_example :
    Released ram_io ram_io-IsBlockIo small_layout data_kind 0 1 small_volume small_volume-IsMounted
      0 4 5008 after got
      (inode_free_data_block ram_io after 1 5008)
get_block-free_block_example =
    get_block-free_block ram_io ram_io-IsBlockIo small_layout data_kind 0 1 small_volume
      small_volume-IsMounted 0 4 5008 after got

free_block-get_block_example :
    let u = (inode_free_data_block ram_io after 1 5008).1 in
    (r : InodeRtvl × ℕ × Volumes Ram) × (inode_get_data_block ram_io small_layout 1 u 1 0 ≡ some r)
    × (((r.0 ≡ inode_ok) × (r.1 ≡ 5008)) ⊎ ((r.0 ≡ inode_fail) × (r.1 ≡ inode_nopos)))
free_block-get_block_example =
    free_block-get_block ram_io ram_io-IsBlockIo small_layout data_kind 0 1 small_volume
      small_volume-IsMounted 0 4 5008 after got 0 1 (omega arith)

free_block-lost_example :
    let u = (inode_free_data_block ram_io after 1 5008).1 in
    let y = zone data_kind 0 u in
    let r = ram_io.read u.cache 1 y.ptr (λ i. 0) in
    (bit_get (u.memory data_kind 0) y.bit ≡ 0) × (r.0 ≡ true) × (bit_get r.1 y.bit ≡ 1)
free_block-lost_example =
    free_block-lost ram_io ram_io-IsBlockIo small_layout data_kind 0 1 small_volume
      small_volume-IsMounted 0 4 5008 after got plain_device (λ i. 0)
