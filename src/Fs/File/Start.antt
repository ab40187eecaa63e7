-- ===== src/Fs/File/Start.antt =====
-- How file_read_write gets to the block of a position, and what it leaves for the next call.
use ox.Base.{
  ℕ, zero, suc, ◌+◌, ◌*◌, ◌/◌, ◌%◌, ◌^◌, ◌≤◌, ◌<◌, ◌≡◌, ◌≢◌, ◌⊎◌, refl, sym, ap, ◌∙◌, inl, inr,
  true, false, ◌&&◌, not, Bool, ◌==◌, update, arith, Bool-cases,
}
use native.Mathlib.Nat.{add-zero, zero-add}
use ox.Fs.Inode.{Inode, block_size, inode_null, inode_nopos}
use ox.Fs.Directory.{BlockMap, bmap_blocks}
use ox.Fs.File.{
  FileStore, Transfer, ok, Run, ◌>>=◌, begin_at, begin_first, begin_saved, begin_scan, scan_maps,
  map_count, block_index, run_at, zero_map,
}
use ox.Fs.File.Loop.{finish, with_place}
use ox.Fs.File.Layout.{FileLayout, IsLaid, last_map}
use ox.Fs.File.Store.{IsFileStore, update_same, read_block_lem, write_block_lem}
use ox.Fs.File.Write.{shown}

-- The bytes of the blocks of one block map.
abbrev pub map_bytes : ℕ
map_bytes = 65024

abbrev pub is_unused : Inode → Bool
is_unused inode = inode.pos == 0 && inode.current == inode_null

abbrev pub remembers : Inode → ℕ → Bool
remembers inode pos =
    inode.pos == pos && not (inode.current == inode_null) && not (inode.iblock == inode_nopos)

-- A transfer at `pos` finds the block of `pos`: the file was not used yet and `pos` is 0, the inode
-- remembers the block of `pos`, or the block maps are scanned for a `pos` that does not lie at the
-- start of a later block map.
pub data Placed (l : FileLayout) (inode : Inode) (pos : ℕ) : Type 0 where
  unused : is_unused inode ≡ true → pos ≡ 0 → Placed l inode pos
  saved :
      is_unused inode ≡ false
      → remembers inode pos ≡ true
      → inode.current ≡ l.blocks (pos / block_size)
      → inode.current_parent ≡ l.maps (pos / block_size / bmap_blocks)
      → inode.iblock ≡ pos / block_size % bmap_blocks
      → Placed l inode pos
  scanned :
      is_unused inode ≡ false
      → remembers inode pos ≡ false
      → (pos ≡ 0) ⊎ (pos % map_bytes ≢ 0)
      → Placed l inode pos

map_count_lem :
    (pos : ℕ)
    → pos < 2 ^ 40
    → (pos ≡ 0) ⊎ (pos % map_bytes ≢ 0)
    → map_count pos ≡ suc (pos / block_size / bmap_blocks)
map_count_lem pos small (inl e) = ground arith
map_count_lem pos small (inr e) = ground arith

-- The variables at block n.
abbrev pub run_of : FileLayout → ℕ → Run
run_of l n =
    run_at (l.blocks n) (n % bmap_blocks) (l.maps (n / bmap_blocks)) (l.bmap (n / bmap_blocks))

scan_maps_none :
    {C : Type 0} (io : FileStore C) (dev current : ℕ) (map : BlockMap) (x : Transfer C)
    → scan_maps io 0 dev current map x ≡ ok (current, map) x
unfolding scan_maps
scan_maps_none io dev current map x = refl

module _ {C : Type 0} {io : FileStore C} {disk : C → ℕ → ℕ → ℕ → ℕ} (is : IsFileStore io disk) where
  -- The last block is written if its flag is set, and is as the device has it if not.
  pub finish_lem :
      (dev pos : ℕ) (r : Run) (x : Transfer C)
      → (r.write_flag ≡ false → r.dptr ≡ disk x.cache dev r.start)
      → let inode = with_place x.inode pos x.bytes_processed r in
        (c : C) × (finish io dev pos r x ≡ ok tt (record x { cache = c; inode = inode }))
        × (disk c dev ≡ update (shown r (disk x.cache dev)) inode.self (io.inode_image inode))
  unfolding finish
  finish_lem dev pos r x clean =
      let inode = with_place x.inode pos x.bytes_processed r in
      let image = io.inode_image inode in
      elim (Bool-cases r.write_flag) [
        | inl e ↦
            let y : Transfer C = record x {
              cache = (io.write x.cache dev r.start r.dptr).1;
              inode = inode;
            } in
            (
              (io.write y.cache dev inode.self image).1,
              rw (e, write_block_lem is dev r.start r.dptr x, ◌>>=◌)
                  (write_block_lem is dev inode.self image y),
              is.write_keeps y.cache dev inode.self image
                  ∙ ap (λ (d : ℕ → ℕ → ℕ). update d inode.self image)
                      (is.write_keeps x.cache dev r.start r.dptr),
            )
        | inr e ↦
            let y : Transfer C = record x { inode = inode } in
            (
              (io.write x.cache dev inode.self image).1,
              rw e (write_block_lem is dev inode.self image y),
              is.write_keeps x.cache dev inode.self image
                  ∙ ap (λ (d : ℕ → ℕ → ℕ). update d inode.self image)
                      (sym (
                        ap (update (disk x.cache dev) r.start) (clean e)
                        ∙ update_same (disk x.cache dev) r.start)),
            )
      ]

  module _ {l : FileLayout} (dev : ℕ) where
    scan_maps_one :
        (n k current : ℕ) (map : BlockMap) (x : Transfer C)
        → IsLaid io.parse_map (disk x.cache dev) l
        → map.next ≡ l.maps k
        → k ≤ last_map l
        → scan_maps io (suc n) dev current map x
          ≡ scan_maps io n dev
              (l.maps k)
              (l.bmap k)
              (record x { cache = (io.read x.cache dev (l.maps k)).2 })
    unfolding scan_maps
    scan_maps_one n k current map x laid at here =
        rw (at, read_block_lem is dev (l.maps k) x, ◌>>=◌, at, laid.map_at k here) refl

    scan_maps_lem :
        (n k current : ℕ) (map : BlockMap) (x : Transfer C)
        → IsLaid io.parse_map (disk x.cache dev) l
        → map.next ≡ l.maps k
        → k + n ≤ last_map l
        → (c : C) × (scan_maps io (suc n) dev current map x
            ≡ ok (l.maps (k + n), l.bmap (k + n)) (record x { cache = c }))
          × (disk c dev ≡ disk x.cache dev)
    scan_maps_lem zero k current map x laid at inside = (
      (io.read x.cache dev (l.maps k)).2,
      scan_maps_one 0 k current map x laid at (omega arith)
          ∙ (scan_maps_none io dev _ _ _ ∙ rw add-zero refl),
      is.read_keeps x.cache dev (l.maps k),
    )
    scan_maps_lem (suc n) k current map x laid at inside =
        let y : Transfer C = record x { cache = (io.read x.cache dev (l.maps k)).2 } in
        let kept : disk y.cache dev ≡ disk x.cache dev = is.read_keeps x.cache dev (l.maps k) in
        let (c, done, same) =
          scan_maps_lem n (suc k) (l.maps k) (l.bmap k) y (rw kept laid)
            (laid.linked k (omega arith)) (omega arith) in
        let sum : suc k + n ≡ k + suc n = omega arith in
        (
          c,
          scan_maps_one (suc n) k current map x laid at (omega arith) ∙ (rw sum at done),
          same ∙ kept,
        )

    pub begin_at_lem :
        (pos : ℕ) (x : Transfer C)
        → IsLaid io.parse_map (disk x.cache dev) l
        → l.maps 0 ≡ x.inode.next
        → Placed l x.inode pos
        → pos / block_size ≤ l.last
        → pos < 2 ^ 40
        → (c : C) × (begin_at io dev pos x
            ≡ ok (run_of l (pos / block_size)) (record x { cache = c }))
          × (disk c dev ≡ disk x.cache dev)
    unfolding begin_at begin_first begin_saved begin_scan
    begin_at_lem pos x laid first (unused e p) inside small =
        let used : (x.inode.next == inode_null) ≡ false =
          ground (arith, first, laid.map_used 0 (omega arith)) in
        let map : io.parse_map (disk x.cache dev x.inode.next) ≡ l.bmap 0 =
          ap (λ (b : ℕ). io.parse_map (disk x.cache dev b)) (sym first)
          ∙ laid.map_at 0 (omega arith) in
        let block = laid.listed 0 (omega arith) in
        let zero_at : pos / block_size ≡ 0 = omega (arith, p) in
        (
          (io.read x.cache dev x.inode.next).2,
          rw (used, e, read_block_lem is dev x.inode.next x, ◌>>=◌, zero_at, map, block, first)
              refl,
          is.read_keeps x.cache dev x.inode.next,
        )
    begin_at_lem pos x laid first (saved e m cur par at) inside small =
        let used : (x.inode.next == inode_null) ≡ false =
          ground (arith, first, laid.map_used 0 (omega arith)) in
        let low : pos / block_size / bmap_blocks ≤ last_map l = omega arith in
        let map : io.parse_map (disk x.cache dev x.inode.current_parent)
            ≡ l.bmap (pos / block_size / bmap_blocks) =
          ap (λ (b : ℕ). io.parse_map (disk x.cache dev b)) par ∙ laid.map_at _ low in
        (
          (io.read x.cache dev x.inode.current_parent).2,
          rw (used, e, m, read_block_lem is dev x.inode.current_parent x, ◌>>=◌) (cc map),
          is.read_keeps x.cache dev x.inode.current_parent,
        )
    begin_at_lem pos x laid first (scanned e m off) inside small =
        let used : (x.inode.next == inode_null) ≡ false =
          ground (arith, first, laid.map_used 0 (omega arith)) in
        let low : 0 + pos / block_size / bmap_blocks ≤ last_map l = omega arith in
        let index : block_index pos ≡ pos / block_size % bmap_blocks = omega arith in
        let (c, done, same) =
          scan_maps_lem (pos / block_size / bmap_blocks) 0 0
            (record zero_map { next = x.inode.next }) x laid (sym first) low in
        (
          c,
          rw
              (
                used,
                e,
                m,
                map_count_lem pos small off,
                done,
                ◌>>=◌,
                zero-add,
                index,
                laid.listed _ inside,
              )
              refl,
          same,
        )

    -- At the start of a block map other than the first one the scan stops at the block map before.
    pub begin_at_boundary :
        (m : ℕ) (x : Transfer C)
        → let pos = map_bytes * suc m in
          IsLaid io.parse_map (disk x.cache dev) l
          → l.maps 0 ≡ x.inode.next
          → is_unused x.inode ≡ false
          → remembers x.inode pos ≡ false
          → bmap_blocks * m ≤ l.last
          → pos < 2 ^ 40
          → (c : C) × (begin_at io dev pos x
              ≡ ok (run_of l (bmap_blocks * m)) (record x { cache = c }))
            × (disk c dev ≡ disk x.cache dev)
    unfolding begin_at begin_scan
    begin_at_boundary m x laid first e r inside small =
        let used : (x.inode.next == inode_null) ≡ false =
          ground (arith, first, laid.map_used 0 (omega arith)) in
        let low : 0 + m ≤ last_map l = omega arith in
        let (c, done, same) =
          scan_maps_lem m 0 0 (record zero_map { next = x.inode.next }) x laid (sym first) low in
        let count : map_count (map_bytes * suc m) ≡ suc m = ground arith in
        let index : block_index (map_bytes * suc m) ≡ 0 = omega arith in
        let at : bmap_blocks * m / bmap_blocks ≡ m = omega arith in
        let start : bmap_blocks * m % bmap_blocks ≡ 0 = omega arith in
        let block : (l.bmap m).blocks 0 ≡ l.blocks (bmap_blocks * m) =
          rw (at, start) at (laid.listed (bmap_blocks * m) inside) in
        (c, rw (used, e, r, count, done, ◌>>=◌, zero-add, index, block, at, start) refl, same)
