-- ===== src/Fs/File/Boundary.antt =====
-- file_read_write of fs/file.c at the start of a block map other than the first one.
use ox.Base.{
  ℕ, suc, ◌+◌, ◌*◌, ◌/◌, ◌%◌, ◌^◌, ◌≤◌, ◌<◌, ◌≡◌, refl, sym, ap, ◌∙◌, true, false, if◌then◌else◌,
  ltb, arith,
}
use native.Mathlib.Nat.{zero-add}
use ox.Fs.Inode.{block_size}
use ox.Fs.Directory.{bmap_blocks}
use ox.Fs.File.{FileStore, Transfer, ok, Run, ◌>>=◌}
use ox.Fs.File.Loop.{file_read_write, with_place}
use ox.Fs.File.Layout.{FileLayout, IsLaid, file_byte}
use ox.Fs.File.Store.{IsFileStore}
use ox.Fs.File.Read.{Reading, transfer_read, got, got_zero}
use ox.Fs.File.Start.{map_bytes, is_unused, remembers, run_of, begin_at_boundary, finish_lem}
use ox.Fs.File.Whole.{run_from}

module _ {C : Type 0} {io : FileStore C} {disk : C → ℕ → ℕ → ℕ → ℕ} (is : IsFileStore io disk) where
  module _ (l : FileLayout) (m length : ℕ) (x : Transfer C) where
    -- file_read_write of a read at the start of a block map other than the first one, over a
    -- layer of blocks that Fs/File/Store describes, where every transfer succeeds and stores its
    -- block, for an inode whose file has its blocks and block maps apart from each other and from
    -- the inode, where the inode does not remember the place, no more bytes are read than the
    -- file's size, and the bytes of the block map before and the place behind them lie inside the
    -- blocks: it succeeds, and the buffer gets the bytes from the start of the block map before,
    -- 65024 bytes too early.
    pub file_read_write_boundary :
        let pos = map_bytes * suc m in
        let d = disk x.cache x.inode.dev in
        IsLaid io.parse_map d l
        → l.maps 0 ≡ x.inode.next
        → is_unused x.inode ≡ false
        → remembers x.inode pos ≡ false
        → (map_bytes * m + length) / block_size ≤ l.last
        → pos < 2 ^ 40
        → 0 < length
        → length < 2 ^ 32
        → length ≤ x.inode.size
        → (y : Transfer C) × (file_read_write io pos length true x ≡ ok tt y)
          × ((j : ℕ)
              → y.buffer j
                ≡ (if ltb j length then file_byte l d (map_bytes * m + j) else x.buffer j))
    file_read_write_boundary laid first e r inside small some_bytes few short =
        let dev = x.inode.dev in
        let pos = map_bytes * suc m in
        let p = map_bytes * m in
        let d = disk x.cache dev in
        let n : ℕ = bmap_blocks * m in
        let (c0, at, kept0) =
          begin_at_boundary is {l = l} dev m x laid first e r (omega (arith, inside)) small in
        let (c, whole, same) = run_from is l x pos length true n c0 at kept0 some_bytes in
        let run : Run = record (run_of l n) { byte = pos % block_size; dptr = d (l.blocks n) } in
        let x' : Transfer C = record x { cache = c; bytes_processed = 0 } in
        let block : p / block_size ≡ n = omega arith in
        let now : Reading io (disk c dev) l p run x' = record {
          laid = rw same laid;
          at =
              rw block
                (record { start_at = refl; current_at = refl; iblock_at = refl; bmap_at = refl });
          byte_at = omega arith;
          held = rw (same, block) refl;
          clean = refl;
          counted = refl;
        } in
        let (c', b, s, done, kept, last, bytes) =
          transfer_read is {l = l} dev length p length (p + length) run x' (sym (zero-add length))
            refl now short few inside in
        let held : s.dptr ≡ disk c' dev s.start =
          last.held
          ∙ (ap (disk c dev) (sym last.at.start_at)
              ∙ ap (λ (a : ℕ → ℕ → ℕ). a s.start) (sym kept)) in
        let y : Transfer C = record x { cache = c'; buffer = b; bytes_processed = length } in
        let (c'', done', kept') = finish_lem is dev pos s y (λ h. held) in
        (
          record y { cache = c''; inode = with_place x.inode pos length s },
          rw (whole, done, ◌>>=◌) done',
          λ j.
              bytes j
              ∙ (ap (λ (a : ℕ → ℕ → ℕ). got (file_byte l a) x.buffer 0 p length j) same
                  ∙ got_zero (file_byte l d) x.buffer p length j),
        )
