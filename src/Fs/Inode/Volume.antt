-- ===== src/Fs/Inode/Volume.antt =====
-- inode_create_fs, inode_dev_open and inode_dev_close of fs/inode.c.
pub mod Format
pub mod Mount
pub mod Close
mod Tests
mod CachedTests
use ox.Base.{
  ℕ, zero, suc, ◌+◌, ◌-◌, ◌*◌, ◌/◌, ◌%◌, ◌^◌, Bool, true, false, not, ◌==◌, Option, none, some,
  List, [], ◌∷◌, ◌++◌, if◌then◌else◌,
}
use ox.Fs.Inode.{
  InodeRtvl, inode_ok, inode_fail, init_needed, inode_magic, block_size, first_block, eacces,
}
use ox.Fs.Inode.Master.{
  Zone, Kind, inode_kind, data_kind, Master, Volumes, set_master, master_init, master_get,
  master_alloc, master_free, Entry, max_dev, zero_master,
}
use ox.Fs.Inode.Device.{BlockIo, Layout}
use ox.Fs.Inode.Map.{zone, put_zone, load, store}

-- What a new file system has done to the device, in order: dev_scan, dev_write, block_reinit and
-- dev_close. The results are not looked at.
pub data DevOp : Type 0 where
  scan_op : ℕ → DevOp
  write_op : ℕ → (ℕ → ℕ) → DevOp
  reinit_op close_op : DevOp

-- The blocks of a map of so many bits: 8 bits in a char, 512 chars in a block, rounded down, but one
-- at least.
abbrev pub map_blocks : ℕ → ℕ
map_blocks bits = let blocks = bits / 8 / block_size in if blocks == 0 then 1 else blocks

abbrev pub add32 : ℕ → ℕ → ℕ
add32 a b = (a + b) % 2 ^ 32

-- The regions, for a size in blocks.
pub format : Master → ℕ → ℕ → Master
format m block_start size =
    let inodes = size * 20 % 2 ^ 32 / 100 in
    let blocks = size * 80 % 2 ^ 32 / 100 in
    let inode_map_start = add32 block_start 1 in
    let inode_map_end = add32 inode_map_start (map_blocks inodes) in
    let bmap_map_end = add32 inode_map_end (map_blocks blocks) in
    let inode_end = add32 bmap_map_end inodes in
    record m {
      init_fs = 1;
      magic = inode_magic;
      block_start = block_start;
      imap = record {
        map_start = inode_map_start;
        map_end = inode_map_end;
        start = bmap_map_end;
        end = inode_end;
        ptr = 0;
        bit = 0;
      };
      bmap = record {
        map_start = inode_map_end;
        map_end = bmap_map_end;
        start = inode_end;
        end = add32 inode_end blocks;
        ptr = 0;
        bit = 0;
      };
      inodes = inodes;
      blocks = blocks;
    }

-- The loops that write zeros to n blocks from i on.
pub clear_blocks : ℕ → ℕ → List DevOp
clear_blocks zero i = []
clear_blocks (suc n) i = scan_op i ∷ write_op i (λ x. 0) ∷ clear_blocks n (suc i)

abbrev pub format_ops : Layout → Master → List DevOp
format_ops layout m =
    scan_op m.block_start
    ∷ write_op m.block_start (layout.image m)
    ∷ (clear_blocks (m.imap.map_end - m.imap.map_start) m.imap.map_start
        ++ (clear_blocks (m.bmap.map_end - m.bmap.map_start) m.bmap.map_start
            ++ (clear_blocks (m.imap.end - m.imap.start) m.imap.start
                ++ (reinit_op ∷ scan_op 0 ∷ close_op ∷ []))))

-- `dev` is what `dev_open` gives. None is a write through NULL, when the table is full.
pub inode_create_fs :
    {C : Type 0} → Layout → Volumes C → ℕ → ℕ → ℕ → Option (InodeRtvl × List DevOp × Volumes C)
inode_create_fs layout v dev block_start size =
    let (found, w) = master_alloc (master_init v) dev in
    if size % block_size == 0
    then elim found [
      | some i ↦
          let m = format (w.tab i) block_start (size / block_size) in
          some (inode_ok, format_ops layout m, master_free (set_master w i m) dev)
      | none ↦ none
    ]
    else some (inode_fail, [], master_init v)

-- `dev_read`, past the cache.
pub record RawIo (C : Type 0) : Type 0 where
  pub read : C → ℕ → ℕ → (ℕ → ℕ) → Bool × (ℕ → ℕ)

module _ {C : Type 0} (io : BlockIo C) (layout : Layout) where
  module _ (dev i : ℕ) where
    -- A map at the opening: its first block if none is named, and the block into memory.
    pub open_map : Kind → Volumes C → Bool × Volumes C
    open_map k v =
        let z = zone k i v in
        let z' = if z.ptr == 0 then record z { ptr = z.map_start; bit = 0 } else z in
        load io k i dev (put_zone k i v z') z'.ptr

    -- From `master->bmap = ...` on.
    pub open_maps : Volumes C → InodeRtvl × Volumes C
    open_maps v =
        let (ok, w) = open_map data_kind v in
        let (ok', w') = open_map inode_kind w in
        if ok
        then (if ok' then (inode_ok, w') else (inode_fail, master_free w' dev))
        else (inode_fail, master_free w dev)

  -- From the test of `init_fs` on, for the master inode i. Its device number is now the one that was
  -- read; an entry that has the device still is i, as no device stands twice in the table.
  pub open_loaded : ℕ → ℕ → Volumes C → InodeRtvl × Volumes C
  open_loaded dev i v =
      if (v.tab i).init_fs == 1
      then elim (master_get v dev) [
        | some j ↦ open_maps dev j v
        | none ↦ (inode_fail, master_free v dev)
      ]
      else (init_needed, master_free v dev)

  -- `block_read` of the master inode, into its entry.
  pub read_master : ℕ → ℕ → Volumes C → Bool × Volumes C
  read_master dev i v =
      let (ok, bytes, c) = io.read v.cache dev first_block (layout.image (v.tab i)) in
      (ok, record (set_master v i (layout.parse bytes)) { cache = c })

  module _ (raw : RawIo C) where
    -- `dev_read` of it.
    pub reread_master : ℕ → ℕ → Volumes C → Bool × Volumes C
    reread_master dev i v =
        let (ok, bytes) = raw.read v.cache dev first_block (layout.image (v.tab i)) in
        (ok, set_master v i (layout.parse bytes))

    -- The master inode was not found in the cache.
    pub open_again : ℕ → ℕ → Volumes C → InodeRtvl × Volumes C
    open_again dev i v =
        let (ok, w) = reread_master dev i v in
        if ok
        then (if (w.tab i).magic == inode_magic
            then open_loaded dev i w
            else (init_needed, master_free w dev))
        else (init_needed, record w { errno = eacces })

    pub open_entry : ℕ → ℕ → Volumes C → InodeRtvl × Volumes C
    open_entry dev i v =
        let (ok, w) = read_master dev i v in
        if ok
        then (if (w.tab i).magic == inode_magic then open_loaded dev i w else open_again dev i w)
        else (inode_fail, record w { errno = eacces })

    -- `path` is opened by `block_open` as a device, none on failure.
    pub inode_dev_open : Volumes C → Option ℕ → InodeRtvl × Volumes C
    inode_dev_open v opened = elim opened [
      | none ↦ (inode_fail, v)
      | some dev ↦
          let (found, w) = master_alloc (master_init v) dev in
          elim found [ none ↦ (inode_fail, w) | some i ↦ open_entry dev i w ]
    ]

  -- The loop that takes a device out of the table of paths.
  abbrev pub forget_dev : (ℕ → Entry) → ℕ → ℕ → Entry
  forget_dev tab dev j = if (tab j).dev == dev then record { path = none; dev = 0 } else tab j

  -- `close` is `block_close`: what it does to the cache, and the value that its caller finds, as it
  -- returns none when it succeeds; `cache_close` of Device/Cache is that of the buffer cache. The maps' writes take the blocks in memory.
  pub inode_dev_close :
      (C → ℕ → Bool × C) → Volumes C → (ℕ → Entry) → ℕ → InodeRtvl × Volumes C × (ℕ → Entry)
  inode_dev_close close v tab dev = elim (master_get v dev) [
    | none ↦ (inode_fail, v, tab)
    | some i ↦
        let (a, u) =
          store io inode_kind i dev v (zone inode_kind i v).ptr (v.memory inode_kind i) in
        let (b, u') = store io data_kind i dev u (zone data_kind i v).ptr (v.memory data_kind i) in
        let (c, u'') = store io data_kind i dev u' (v.tab i).block_start (layout.image (v.tab i)) in
        let (closed, cache) = close u''.cache dev in
        let w : Volumes C = record u'' { cache = cache } in
        if not a
        then (inode_fail, u, tab)
        else if not b
        then (inode_fail, u', tab)
        else if not c
        then (inode_fail, u'', tab)
        else if closed
        then (inode_ok, master_free w dev, forget_dev tab dev)
        else (inode_fail, w, tab)
  ]
