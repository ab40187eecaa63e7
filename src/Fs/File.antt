-- ===== src/Fs/File.antt =====
-- Reading and writing of fs/file.c: file_read_write with what it calls, kread and kwrite. The loops
-- count down the bytes and the block maps that are left, so none needs fuel.
pub mod Loop
pub mod Call
mod Layout
mod Store
mod Round
mod Read
mod Write
mod Start
mod Whole
mod Boundary
mod Tests
use ox.Base.{
  ℕ, zero, suc, ◌+◌, ◌-◌, ◌*◌, ◌/◌, ◌%◌, ◌^◌, Bool, true, false, not, ◌&&◌, ◌||◌, ◌==◌, Option,
  none, some, if◌then◌else◌, ltb, leb, update,
}
use ox.Fs.Inode.{Inode, inode_null, inode_nopos, eacces, block_size}
use ox.Fs.Directory.{BlockMap, bmap_blocks}

abbrev pub enospc : ℕ
enospc = 28

-- What is used of the layers below over their state C, true for BLOCK_OK and INODE_OK: block_read,
-- block_write and inode_get_data_block, each with the device; and how the compiler lays out a block map
-- and an inode in a block.
pub record FileStore (C : Type 0) : Type 0 where
  pub read : C → ℕ → ℕ → Bool × (ℕ → ℕ) × C
  pub write : C → ℕ → ℕ → (ℕ → ℕ) → Bool × C
  pub get_data_block : C → ℕ → Bool × ℕ × C
  pub parse_map : (ℕ → ℕ) → BlockMap
  pub map_image : BlockMap → ℕ → ℕ
  pub inode_image : Inode → ℕ → ℕ

-- What a transfer changes: the inode and the buffer of the caller, `*bytes_processed`, errno, and the
-- layers below.
pub record Transfer (C : Type 0) : Type 0 where
  pub cache : C
  pub errno : ℕ
  pub inode : Inode
  pub buffer : ℕ → ℕ
  pub bytes_processed : ℕ

-- FILE_OK with a value, or FILE_FAIL.
pub data Outcome (C A : Type 0) : Type 0 where
  ok : A → Transfer C → Outcome C A
  fail : Transfer C → Outcome C A

abbrev pub Io : Type 0 → Type 0 → Type 0
Io C A = Transfer C → Outcome C A

infixl 5 ◌>>=◌ ◌>>◌
abbrev pub ◌>>=◌ : {C A B : Type 0} → Io C A → (A → Io C B) → Io C B
◌>>=◌ m f x = elim (m x) [ ok a y ↦ f a y | fail y ↦ fail y ]

abbrev pub ◌>>◌ : {C A B : Type 0} → Io C A → Io C B → Io C B
m >> k = m >>= λ _. k

abbrev pub pure : {C A : Type 0} → A → Io C A
pure a x = ok a x

-- The local variables of the transfer.
pub record Run : Type 0 where
  pub i : ℕ
  pub byte : ℕ
  pub iblock : ℕ
  pub start : ℕ
  pub current : ℕ
  pub bmap : BlockMap
  pub dptr : ℕ → ℕ
  pub write_flag : Bool

abbrev pub zero_data : ℕ → ℕ
zero_data i = 0

abbrev pub zero_map : BlockMap
zero_map = record { next = 0; blocks = zero_data }

abbrev pub run_at : ℕ → ℕ → ℕ → BlockMap → Run
run_at start iblock current bmap = record {
  i = 0;
  byte = 0;
  iblock = iblock;
  start = start;
  current = current;
  bmap = bmap;
  dptr = zero_data;
  write_flag = false;
}

-- `block` and `iter`, the number of block maps to scan.
abbrev pub block_count : ℕ → ℕ
block_count pos =
    (pos / block_size % 2 ^ 32
      + (if pos % block_size == 0 then 0 else 1)
      + (if pos == 0 then 1 else 0))
    % 2 ^ 32

abbrev pub map_count : ℕ → ℕ
map_count pos =
    block_count pos / bmap_blocks + (if block_count pos % bmap_blocks == 0 then 0 else 1)

abbrev pub block_index : ℕ → ℕ
block_index pos = pos / block_size % 2 ^ 32 % bmap_blocks

abbrev pub get_inode : {C : Type 0} → Io C Inode
get_inode x = ok x.inode x

abbrev pub put_inode : {C : Type 0} → Inode → Io C (Unit {0})
put_inode inode x = ok tt (record x { inode = inode })

module _ {C : Type 0} (io : FileStore C) where
  -- A transfer that fails sets errno.
  pub read_block : ℕ → ℕ → Io C (ℕ → ℕ)
  read_block dev block x =
      let (done, bytes, c) = io.read x.cache dev block in
      if done
      then ok bytes (record x { cache = c })
      else fail (record x { cache = c; errno = eacces })

  pub write_block : ℕ → ℕ → (ℕ → ℕ) → Io C (Unit {0})
  write_block dev block bytes x =
      let (done, c) = io.write x.cache dev block bytes in
      if done then ok tt (record x { cache = c }) else fail (record x { cache = c; errno = eacces })

  -- With the errno of a failure, or none where it is left.
  pub new_block : Option ℕ → ℕ → Io C ℕ
  new_block error dev x =
      let (done, block, c) = io.get_data_block x.cache dev in
      let errno : ℕ = elim error [ some e ↦ e | none ↦ x.errno ] in
      if done
      then ok block (record x { cache = c })
      else fail (record x { cache = c; errno = errno })

  pub file_add_one_bmap_block : ℕ → ℕ → BlockMap → Io C BlockMap
  file_add_one_bmap_block dev current bmap = do
    block ← new_block (some enospc) dev
    let linked : BlockMap = record bmap { next = block }
    write_block dev block (io.map_image zero_map)
    write_block dev current (io.map_image linked)
    pure linked

  pub file_add_one_data_block : ℕ → ℕ → BlockMap → ℕ → Io C BlockMap
  file_add_one_data_block dev current bmap iblock = do
    block ← new_block (some enospc) dev
    let listed : BlockMap = record bmap { blocks = update bmap.blocks iblock block }
    write_block dev block zero_data
    write_block dev current (io.map_image listed)
    pure listed

  -- A file with no block map gets one, and a first block.
  pub begin_new : ℕ → Io C Run
  begin_new dev = do
    next ← new_block none dev
    old ← get_inode
    let inode : Inode = record old { next = next }
    put_inode inode
    write_block dev inode.self (io.inode_image inode)
    write_block dev next zero_data
    bytes ← read_block dev next
    first ← new_block (some eacces) dev
    let empty = io.parse_map bytes
    let bmap : BlockMap = record empty { blocks = update empty.blocks 0 first }
    write_block dev next (io.map_image bmap)
    pure (run_at first 0 next bmap)

  pub begin_first : ℕ → Inode → Io C Run
  begin_first dev inode = do
    bytes ← read_block dev inode.next
    pure (run_at ((io.parse_map bytes).blocks 0) 0 inode.next (io.parse_map bytes))

  pub begin_saved : ℕ → Inode → Io C Run
  begin_saved dev inode = do
    bytes ← read_block dev inode.current_parent
    pure (run_at inode.current inode.iblock inode.current_parent (io.parse_map bytes))

  -- The scan over the block maps.
  pub scan_maps : ℕ → ℕ → ℕ → BlockMap → Io C (ℕ × BlockMap)
  scan_maps zero dev current bmap = pure (current, bmap)
  scan_maps (suc n) dev current bmap = do
    bytes ← read_block dev bmap.next
    scan_maps n dev bmap.next (io.parse_map bytes)

  pub begin_scan : ℕ → Inode → ℕ → Io C Run
  begin_scan dev inode pos = do
    found ← scan_maps (map_count pos) dev 0 (record zero_map { next = inode.next })
    let bmap = found.1
    pure (run_at (bmap.blocks (block_index pos)) (block_index pos) found.0 bmap)

  pub begin_at : ℕ → ℕ → Io C Run
  begin_at dev pos x =
      if x.inode.next == inode_null
      then begin_new dev x
      else if x.inode.pos == 0 && x.inode.current == inode_null
      then begin_first dev x.inode x
      else if x.inode.pos == pos
          && not (x.inode.current == inode_null)
          && not (x.inode.iblock == inode_nopos)
      then begin_saved dev x.inode x
      else begin_scan dev x.inode pos x
