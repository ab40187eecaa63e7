-- ===== src/Fs/Inode/Volume/Mount.antt =====
-- inode_dev_open of fs/inode.c.
use ox.Base.{
  ℕ, ◌<◌, ◌≡◌, ◌≢◌, ap, ◌∙◌, inl, inr, true, ◌==◌, some, if◌then◌else◌, arith, Bool-cases,
  Option-cases,
}
use mathlib.Core.Path.{subst}
use ox.Fs.Bitmap.{IsBytes}
use ox.Fs.Inode.{inode_ok, inode_magic, inode_nopos, inode_nr_dev}
use ox.Fs.Inode.Master.{
  Zone, Kind, inode_kind, data_kind, Volumes, master_init, master_get, master_alloc,
}
use ox.Fs.Inode.Master.Table.{
  IsTable, Allocated, find_dev-some, master_alloc-Allocated, find_dev-same,
}
use ox.Fs.Inode.Device.{BlockIo, IsBlockIo, Layout}
use ox.Fs.Inode.Map.{zone, put_zone}
use ox.Fs.Inode.Map.Take.{load-IsBytes}
use ox.Fs.Inode.Volume.{
  RawIo, open_map, open_maps, open_loaded, read_master, reread_master, open_again, open_entry,
  inode_dev_open,
}

module _ {C : Type 0} where
  -- What a success of inode_dev_open gives: the device has a master inode, which is that of a file
  -- system, and for each map with its pointers in order the block that they name is in memory.
  pub record Opened (dev : ℕ) (w : Volumes C) : Type 0 where
    pub entry : ℕ
    pub found : master_get w dev ≡ some entry
    pub magic : (w.tab entry).magic ≡ inode_magic
    pub made : (w.tab entry).init_fs ≡ 1
    pub pointers : (k : Kind) → (zone k entry w).map_start ≢ 0 → (zone k entry w).ptr ≢ 0
    pub bytes : (k : Kind) → IsBytes (w.memory k entry)

abbrev opposite : Kind → Kind
opposite inode_kind = data_kind
opposite data_kind = inode_kind

module _ {C : Type 0} (io : BlockIo C) (law : IsBlockIo io) (layout : Layout) (dev i : ℕ) where
  -- What the opening of one map changes.
  record MapOpened (k : Kind) (v w : Volumes C) : Type 0 where
    devices : (x : ℕ) → (w.tab x).dev ≡ (v.tab x).dev
    magic : (w.tab i).magic ≡ (v.tab i).magic
    made : (w.tab i).init_fs ≡ (v.tab i).init_fs
    start : (zone k i w).map_start ≡ (zone k i v).map_start
    ptr :
        (zone k i w).ptr
        ≡ (if (zone k i v).ptr == 0 then (zone k i v).map_start else (zone k i v).ptr)
    bytes : IsBytes (w.memory k i)
    other : zone (opposite k) i w ≡ zone (opposite k) i v
    other_bytes : IsBytes (v.memory (opposite k) i) → IsBytes (w.memory (opposite k) i)

  abbrev first_zone : Zone → Zone
  first_zone z = if z.ptr == 0 then record z { ptr = z.map_start; bit = 0 } else z

  open_map-MapOpened : (k : Kind) (v : Volumes C) → MapOpened k v (open_map io layout dev i k v).1
  unfolding open_map
  open_map-MapOpened data_kind v =
      let z = first_zone (zone data_kind i v) in
      let b = load-IsBytes io law data_kind i dev (put_zone data_kind i v z) z.ptr in
      record {
        devices = λ x. ground arith;
        magic = ground arith;
        made = ground arith;
        start = ground arith;
        ptr = ground arith;
        bytes = b;
        other = ground arith;
        other_bytes = λ is x. ground (arith, is x);
      }
  open_map-MapOpened inode_kind v =
      let z = first_zone (zone inode_kind i v) in
      let b = load-IsBytes io law inode_kind i dev (put_zone inode_kind i v z) z.ptr in
      record {
        devices = λ x. ground arith;
        magic = ground arith;
        made = ground arith;
        start = ground arith;
        ptr = ground arith;
        bytes = b;
        other = ground arith;
        other_bytes = λ is x. ground (arith, is x);
      }

  open_maps-Opened :
      (v : Volumes C)
      → master_get v dev ≡ some i
      → (v.tab i).magic ≡ inode_magic
      → (v.tab i).init_fs ≡ 1
      → (open_maps io layout dev i v).0 ≡ inode_ok
      → Opened dev (open_maps io layout dev i v).1
  unfolding open_maps
  open_maps-Opened v found magic made ok =
      let a = open_map io layout dev i data_kind v in
      let b = open_map io layout dev i inode_kind a.1 in
      let p = open_map-MapOpened data_kind v in
      let q = open_map-MapOpened inode_kind a.1 in
      let both : (a.0 ≡ true) × (b.0 ≡ true) = ground arith in
      rw (both.0, both.1)
        (record {
          entry = i;
          found =
              find_dev-same v.tab b.1.tab dev inode_nr_dev 0 (λ j. q.devices j ∙ p.devices j)
              ∙ found;
          magic = q.magic ∙ p.magic ∙ magic;
          made = q.made ∙ p.made ∙ made;
          pointers = λ k. elim k as (λ k. (zone k i b.1).map_start ≢ 0 → (zone k i b.1).ptr ≢ 0) [
            | inode_kind ↦ λ ne. ground (arith, q.ptr, q.start, p.other, ne)
            | data_kind ↦ λ ne. ground (arith, p.ptr, p.start, q.other, ne)
          ];
          bytes = λ k. elim k as (λ k. IsBytes (b.1.memory k i)) [
            | inode_kind ↦ q.bytes
            | data_kind ↦ q.other_bytes p.bytes
          ];
        })

  open_loaded-Opened :
      (v : Volumes C)
      → ((j : ℕ) → master_get v dev ≡ some j → j ≡ i)
      → (v.tab i).magic ≡ inode_magic
      → (open_loaded io layout dev i v).0 ≡ inode_ok
      → Opened dev (open_loaded io layout dev i v).1
  unfolding open_loaded
  open_loaded-Opened v only magic ok = elim (Bool-cases ((v.tab i).init_fs == 1)) [
    | inr e ↦ absurd (ground arith)
    | inl e ↦ elim (Option-cases (master_get v dev)) [
      | inl none' ↦ absurd (ground arith)
      | inr (j, found) ↦
          let at : some j ≡ some i = ap some (only j found) in
          let found' : master_get v dev ≡ some i = found ∙ at in
          let ok' : (open_maps io layout dev i v).0 ≡ inode_ok = ground arith in
          rw (e, found', open_loaded) (open_maps-Opened v found' magic (ground arith) ok')
    ]
  ]

module _ {C : Type 0} (io : BlockIo C) (law : IsBlockIo io) (layout : Layout) (raw : RawIo C) where
  -- An entry that is read over is the only one that can have the device.
  module _ (w : Volumes C) (dev i : ℕ) where
    abbrev IsOver : Type 0
    IsOver = (j : ℕ) → j ≢ i → j < inode_nr_dev → (w.tab j).dev ≢ dev

    only_entry : IsOver → (j : ℕ) → master_get w dev ≡ some j → j ≡ i
    only_entry over j h =
        let r = find_dev-some w.tab dev inode_nr_dev 0 j h in ground (arith, over j, r.1, r.2)

  read_master-IsOver :
      (w : Volumes C) (dev i : ℕ) → IsOver w dev i → IsOver (read_master io layout dev i w).1 dev i
  unfolding read_master
  read_master-IsOver w dev i over j ne small = ground (arith, over j)

  reread_master-IsOver :
      (w : Volumes C) (dev i : ℕ)
      → IsOver w dev i
      → IsOver (reread_master io layout raw dev i w).1 dev i
  unfolding reread_master
  reread_master-IsOver w dev i over j ne small = ground (arith, over j)

  open_entry-Opened :
      (w : Volumes C) (dev i : ℕ)
      → IsOver w dev i
      → (open_entry io layout raw dev i w).0 ≡ inode_ok
      → Opened dev (open_entry io layout raw dev i w).1
  unfolding open_entry open_again
  open_entry-Opened w dev i over ok =
      let a = read_master io layout dev i w in
      let b = reread_master io layout raw dev i a.1 in
      let over' : IsOver a.1 dev i = read_master-IsOver w dev i over in
      let over'' : IsOver b.1 dev i = reread_master-IsOver a.1 dev i over' in
      elim (Bool-cases a.0) [
        | inr bad ↦ absurd (ground arith)
        | inl read ↦ elim (Bool-cases ((a.1.tab i).magic == inode_magic)) [
          | inl magic ↦
              rw (read, magic)
                (open_loaded-Opened io law layout dev i a.1 (only_entry a.1 dev i over')
                  (ground arith) (ground arith))
          | inr other ↦ elim (Bool-cases b.0) [
            | inr bad ↦ absurd (ground arith)
            | inl read' ↦ elim (Bool-cases ((b.1.tab i).magic == inode_magic)) [
              | inr bad ↦ absurd (ground arith)
              | inl magic ↦
                  rw (read, other, read', magic)
                    (open_loaded-Opened io law layout dev i b.1 (only_entry b.1 dev i over'')
                      (ground arith) (ground arith))
            ]
          ]
        ]
      ]

  -- In a table where no device stands twice, for a device number that is not -1: if
  -- inode_dev_open succeeds, the device has a master inode with the magic number and the mark of
  -- a file system, the blocks in memory of its two maps consist of bytes, and a map whose first
  -- block is not 0 has a block named.
  pub inode_dev_open-Opened :
      (v : Volumes C) (dev : ℕ)
      → IsTable (master_init v).tab
      → dev ≢ inode_nopos
      → (inode_dev_open io layout raw v (some dev)).0 ≡ inode_ok
      → Opened dev (inode_dev_open io layout raw v (some dev)).1
  unfolding inode_dev_open
  inode_dev_open-Opened v dev is real ok =
      let a = master_alloc (master_init v) dev in
      let h = master_alloc-Allocated (master_init v) dev is real in
      elim (Option-cases a.0) [
        | inl e ↦ absurd (ground arith)
        | inr (i, e) ↦
            let h' : Allocated (master_init v) dev is real (some i, a.1) =
              subst (λ o. Allocated (master_init v) dev is real (o, a.1)) e h in
            let r = find_dev-some a.1.tab dev inode_nr_dev 0 i h'.1 in
            let over : IsOver a.1 dev i = λ j ne small. ground (arith, h'.2 j i, r.1, r.2) in
            let ok' : (open_entry io layout raw dev i a.1).0 ≡ inode_ok = ground arith in
            rw (e, inode_dev_open) (open_entry-Opened a.1 dev i over ok')
      ]
