-- ===== src/Fs/File/Loop.antt =====
-- The loop of file_read_write of fs/file.c over the bytes of a transfer, and the whole.
use ox.Base.{
  ℕ, zero, suc, ◌+◌, ◌%◌, ◌^◌, Bool, true, false, not, ◌||◌, ◌==◌, if◌then◌else◌, ltb, leb, update,
}
use ox.Fs.Inode.{Inode, inode_null, block_size}
use ox.Fs.Directory.{bmap_blocks}
use ox.Fs.File.{
  FileStore, ok, Io, ◌>>=◌, ◌>>◌, pure, Run, read_block, write_block, file_add_one_bmap_block,
  file_add_one_data_block, get_inode, put_inode, begin_at,
}

abbrev pub with_place : Inode → ℕ → ℕ → Run → Inode
with_place inode pos processed r = record inode {
  pos = (pos + processed) % 2 ^ 64;
  size =
      if ltb inode.size ((pos + processed) % 2 ^ 64)
      then (pos + processed) % 2 ^ 64
      else inode.size;
  current = r.start;
  current_parent = r.current;
  iblock = r.iblock;
}

abbrev pub put_processed : {C : Type 0} → ℕ → Io C (Unit {0})
put_processed n x = ok tt (record x { bytes_processed = n })

module _ {C : Type 0} (io : FileStore C) where
  -- The byte of one round.
  unfoldable pub move_byte : Bool → Run → Io C Run
  move_byte reading r x =
      let past = leb x.inode.size x.bytes_processed in
      let moved : Run = record r { i = (r.i + 1) % 2 ^ 32; byte = (r.byte + 1) % block_size } in
      let there = if past then 0 else r.dptr r.byte in
      if reading
      then ok (record moved { dptr = if past then update r.dptr r.byte 0 else r.dptr })
          (record x { buffer = update x.buffer r.i there; bytes_processed = (r.i + 1) % 2 ^ 32 })
      else ok (record moved { dptr = update r.dptr r.byte (x.buffer r.i); write_flag = true })
          (record x { bytes_processed = (r.i + 1) % 2 ^ 32 })

  unfoldable pub flush_full : Bool → ℕ → Run → Io C Run
  flush_full reading dev r x =
      if not reading || leb x.inode.size x.bytes_processed
      then (write_block io dev r.start r.dptr >> pure (record r { write_flag = false })) x
      else ok r x

  -- The block map of the next block, a new one if there is none.
  unfoldable pub next_map : ℕ → Run → Io C Run
  next_map dev r = if not (r.iblock == 0) then pure r else (do
    bmap ←
        (if r.bmap.next == inode_null
          then file_add_one_bmap_block io dev r.current r.bmap
          else pure r.bmap)
    bytes ← read_block io dev bmap.next
    pure (record r { current = bmap.next; bmap = io.parse_map bytes }))

  -- The next block, a new one if there is none.
  unfoldable pub next_block : ℕ → Run → Io C Run
  next_block dev r = do
    bmap ←
        (if r.bmap.blocks r.iblock == inode_null
          then file_add_one_data_block io dev r.current r.bmap r.iblock
          else pure r.bmap)
    let start = bmap.blocks r.iblock
    bytes ← read_block io dev start
    pure (record r { start = start; bmap = bmap; dptr = bytes })

  unfoldable pub next_round : Bool → ℕ → Run → Io C Run
  next_round reading dev r =
      if r.byte == 0
      then (do
        flushed ← flush_full reading dev r
        mapped ←
            next_map dev (record flushed { iblock = (flushed.iblock + 1) % 2 ^ 32 % bmap_blocks })
        next_block dev mapped)
      else pure r

  unfoldable pub round : Bool → ℕ → Run → Io C Run
  round reading dev r = do moved ← move_byte reading r; next_round reading dev moved

  unfoldable pub transfer : Bool → ℕ → ℕ → Run → Io C Run
  transfer reading dev zero r = pure r
  transfer reading dev (suc n) r = do next ← round reading dev r; transfer reading dev n next

  -- The last block and the inode.
  unfoldable pub finish : ℕ → ℕ → Run → Io C (Unit {0})
  finish dev pos r = do
    (if r.write_flag then write_block io dev r.start r.dptr else pure tt)
    inode ← get_inode
    processed ← (λ x. ok x.bytes_processed x)
    put_inode (with_place inode pos processed r)
    write_block io dev inode.self (io.inode_image (with_place inode pos processed r))

  unfoldable pub file_read_write : ℕ → ℕ → Bool → Io C (Unit {0})
  file_read_write pos length reading x =
      if length == 0
      then put_processed 0 x
      else (let dev = x.inode.dev in
          (do
            r ← begin_at io dev pos
            bytes ← read_block io dev r.start
            put_processed 0
            s ←
                transfer reading dev length
                  (record r { byte = pos % 2 ^ 32 % block_size; dptr = bytes })
            finish dev pos s)
            x)
