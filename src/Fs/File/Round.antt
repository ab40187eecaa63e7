-- ===== src/Fs/File/Round.antt =====
-- One byte of a transfer inside the blocks of a file: the step to the next block.
use ox.Base.{
  ℕ, suc, ◌+◌, ◌/◌, ◌%◌, ◌^◌, ◌≤◌, ◌≡◌, refl, ap, ◌∙◌, inl, inr, Bool, true, false, not, ◌||◌, ◌==◌,
  if◌then◌else◌, leb, update, arith, Bool-cases,
}
use ox.Fs.Inode.{inode_null}
use ox.Fs.Directory.{BlockMap, bmap_blocks}
use ox.Fs.File.{FileStore, Transfer, ok, Run, ◌>>=◌}
use ox.Fs.File.Loop.{next_map, next_block, flush_full, next_round}
use ox.Fs.File.Layout.{FileLayout, IsLaid, IsAt, last_map}
use ox.Fs.File.Store.{IsFileStore, update_same, read_block_lem, write_block_lem}

-- The bytes of a full block are written if the call writes, or if it reads up to the end.
abbrev pub flushed : {C : Type 0} → Bool → Run → Transfer C → Bool
flushed reading r x = not reading || leb x.inode.size x.bytes_processed

-- What the device has after the write of a full block.
abbrev pub after_flush : Bool → Run → (ℕ → ℕ → ℕ) → ℕ → ℕ → ℕ
after_flush full r d = if full then update d r.start r.dptr else d

-- The variables at the start of block n.
abbrev pub at_next : FileLayout → ℕ → Bool → (ℕ → ℕ → ℕ) → Run → Run
at_next l n full d r = record r {
  iblock = n % bmap_blocks;
  current = l.maps (n / bmap_blocks);
  bmap = l.bmap (n / bmap_blocks);
  start = l.blocks n;
  dptr = d (l.blocks n);
  write_flag = if full then false else r.write_flag;
}

pub at_next-IsAt :
    (l : FileLayout) (n : ℕ) (full : Bool) (d : ℕ → ℕ → ℕ) (r : Run)
    → IsAt l n (at_next l n full d r)
at_next-IsAt l n full d r = record {
  start_at = refl;
  current_at = refl;
  iblock_at = refl;
  bmap_at = refl;
}

module _ {C : Type 0} {io : FileStore C} {disk : C → ℕ → ℕ → ℕ → ℕ} (is : IsFileStore io disk) where
  flush_full_lem :
      (dev : ℕ) (reading : Bool) (r : Run) (x : Transfer C)
      → (c : C) × (flush_full io reading dev r x
          ≡ ok
              (record r { write_flag = if flushed reading r x then false else r.write_flag })
              (record x { cache = c }))
        × (disk c dev ≡ after_flush (flushed reading r x) r (disk x.cache dev))
  unfolding flush_full
  flush_full_lem dev reading r x = elim (Bool-cases (flushed reading r x)) [
    | inl e ↦ (
      (io.write x.cache dev r.start r.dptr).1,
      rw (e, write_block_lem is dev r.start r.dptr x, ◌>>=◌) refl,
      rw e (is.write_keeps x.cache dev r.start r.dptr),
    )
    | inr e ↦ (x.cache, rw e refl, rw e refl)
  ]

  module _ {l : FileLayout} (dev : ℕ) where
    next_map_lem :
        (n : ℕ) (r : Run) (x : Transfer C)
        → IsLaid io.parse_map (disk x.cache dev) l
        → suc n ≤ l.last
        → r.iblock ≡ suc n % bmap_blocks
        → r.current ≡ l.maps (n / bmap_blocks)
        → r.bmap ≡ l.bmap (n / bmap_blocks)
        → (c : C) × (next_map io dev r x
            ≡ ok
                (record r {
                  current = l.maps (suc n / bmap_blocks);
                  bmap = l.bmap (suc n / bmap_blocks);
                })
                (record x { cache = c }))
          × (disk c dev ≡ disk x.cache dev)
    unfolding next_map
    next_map_lem n r x laid inside at cur map = elim (Bool-cases (r.iblock == 0)) [
      | inr e ↦
          let same : suc n / bmap_blocks ≡ n / bmap_blocks = ground arith in
          (x.cache, rw (e, same) (ground (arith, cur, map)), refl)
      | inl e ↦
          let up : suc n / bmap_blocks ≡ suc (n / bmap_blocks) = ground arith in
          let low : suc (n / bmap_blocks) ≤ last_map l = omega arith in
          let link : r.bmap.next ≡ l.maps (suc (n / bmap_blocks)) =
            ap (λ (m : BlockMap). m.next) map ∙ laid.linked (n / bmap_blocks) low in
          let used : (r.bmap.next == inode_null) ≡ false =
            ground (arith, link, laid.map_used (suc (n / bmap_blocks)) low) in
          (
            (io.read x.cache dev (l.maps (suc (n / bmap_blocks)))).2,
            rw
                (
                  e,
                  used,
                  link,
                  read_block_lem is dev (l.maps (suc (n / bmap_blocks))) x,
                  ◌>>=◌,
                  laid.map_at _ low,
                  up,
                  link,
                )
                refl,
            is.read_keeps x.cache dev (l.maps (suc (n / bmap_blocks))),
          )
    ]

    next_block_lem :
        (n : ℕ) (r : Run) (x : Transfer C)
        → IsLaid io.parse_map (disk x.cache dev) l
        → n ≤ l.last
        → r.iblock ≡ n % bmap_blocks
        → r.bmap ≡ l.bmap (n / bmap_blocks)
        → (c : C) × (next_block io dev r x
            ≡ ok
                (record r { start = l.blocks n; dptr = disk x.cache dev (l.blocks n) })
                (record x { cache = c }))
          × (disk c dev ≡ disk x.cache dev)
    unfolding next_block
    next_block_lem n r x laid inside at map =
        let here : r.bmap.blocks r.iblock ≡ l.blocks n =
          ap (λ (m : BlockMap). m.blocks r.iblock) map
          ∙ (ap (l.bmap (n / bmap_blocks)).blocks at ∙ laid.listed n inside) in
        let used : (r.bmap.blocks r.iblock == inode_null) ≡ false =
          ground (arith, here, laid.block_used n inside) in
        (
          (io.read x.cache dev (l.blocks n)).2,
          rw (used, here, read_block_lem is dev (l.blocks n) x, ◌>>=◌, here) refl,
          is.read_keeps x.cache dev (l.blocks n),
        )

    -- The step from the end of block n to the next one.
    pub next_round_full :
        (n : ℕ) (reading : Bool) (r : Run) (x : Transfer C)
        → IsLaid io.parse_map (after_flush (flushed reading r x) r (disk x.cache dev)) l
        → suc n ≤ l.last
        → IsAt l n r
        → (r.byte == 0) ≡ true
        → let d = after_flush (flushed reading r x) r (disk x.cache dev) in
          (c : C) × (next_round io reading dev r x
            ≡ ok (at_next l (suc n) (flushed reading r x) d r) (record x { cache = c }))
          × (disk c dev ≡ d)
    unfolding next_round
    next_round_full n reading r x laid inside at full =
        let (c, done, same) = flush_full_lem dev reading r x in
        let i : (r.iblock + 1) % 2 ^ 32 % bmap_blocks ≡ suc n % bmap_blocks =
          ground (arith, at.iblock_at) in
        let r' : Run = record r {
          iblock = suc n % bmap_blocks;
          write_flag = if flushed reading r x then false else r.write_flag;
        } in
        let (c', done', same') =
          next_map_lem n r' (record x { cache = c }) (rw same laid) inside refl at.current_at
            at.bmap_at in
        let (c'', done'', same'') =
          next_block_lem (suc n)
            (record r' {
              current = l.maps (suc n / bmap_blocks);
              bmap = l.bmap (suc n / bmap_blocks);
            })
            (record x { cache = c' }) (rw (same', same) laid) inside refl refl in
        (
          c'',
          rw (full, done, ◌>>=◌, i, done', ◌>>=◌, done'', same', same) refl,
          same'' ∙ (same' ∙ same),
        )

-- A block that is as it was read stays what it is.
pub after_flush-held :
    (full : Bool) (r : Run) (d : ℕ → ℕ → ℕ) → r.dptr ≡ d r.start → after_flush full r d ≡ d
after_flush-held true r d held = ap (update d r.start) held ∙ update_same d r.start
after_flush-held false r d held = refl
