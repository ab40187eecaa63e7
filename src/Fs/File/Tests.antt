-- ===== src/Fs/File/Tests.antt =====
-- fs/file.c on a device in memory: a file of 201 blocks in two block maps, with its inode in block 50.
use ox.Base.{
  ℕ, suc, ◌+◌, ◌-◌, ◌*◌, ◌%◌, ◌≡◌, refl, inr, true, false, ◌&&◌, ◌==◌, none, some, if◌then◌else◌,
  ltb, leb, update, arith,
}
use ox.Fs.Inode.{Inode}
use ox.Fs.Directory.{BlockMap}
use ox.Fs.Descriptor.{Files, zero_inode, klseek}
use ox.Fs.File.{FileStore, Transfer, ok}
use ox.Fs.File.Loop.{file_read_write}
use ox.Fs.File.Layout.{FileLayout, IsLaid, file_byte}
use ox.Fs.File.Store.{IsFileStore}
use ox.Fs.File.Start.{saved, map_bytes}
use ox.Fs.File.Whole.{
  Inside, HasRead, HasWritten, file_read_write-HasRead, file_read_write-HasWritten,
}
use ox.Fs.File.Boundary.{file_read_write_boundary}
use ox.Fs.File.Call.{file_io, kread, kwrite}
use ox.Fs.File.Call.Seek.{kwrite-klseek-kread}

abbrev Ram : Type 0
Ram = ℕ → ℕ → ℕ

abbrev read_words : (ℕ → ℕ) → BlockMap
read_words bytes = record { next = bytes 0; blocks = λ i. bytes (i + 1) }

abbrev ram_store : FileStore Ram
ram_store = record {
  read = λ c dev block. (true, c block, c);
  write = λ c dev block bytes. (true, update c block bytes);
  get_data_block = λ c dev. (true, 4000, c);
  parse_map = read_words;
  map_image = λ m i. if i == 0 then m.next else m.blocks (i - 1);
  inode_image = λ inode i. if i == 0 then inode.size else inode.pos;
}

abbrev ram_disk : Ram → ℕ → ℕ → ℕ → ℕ
ram_disk c dev = c

ram_store-IsFileStore : IsFileStore ram_store ram_disk
ram_store-IsFileStore = record {
  reads = λ c dev block. refl;
  read_bytes = λ c dev block. refl;
  read_keeps = λ c dev block. refl;
  writes = λ c dev block bytes. refl;
  write_keeps = λ c dev block bytes. refl;
}

-- The block maps are 100 and 101, the blocks 1000 to 1200.
abbrev ram : Ram
ram b i =
    if leb 100 b && ltb b 200
    then (if i == 0 then b + 1 else 1000 + 127 * (b - 100) + (i - 1))
    else (b + i) % 256

abbrev layout : FileLayout
layout = record {
  self = 50;
  last = 200;
  maps = λ k. 100 + k;
  blocks = λ n. 1000 + n;
  bmap = λ k. read_words (ram (100 + k));
}

ram-IsLaid : IsLaid read_words ram layout
ram-IsLaid = record {
  linked = λ k small. ground arith;
  listed = λ n small. ground arith;
  map_used = λ k small e. omega arith;
  block_used = λ n small e. omega arith;
  map_at = λ k small. refl;
  apart = λ n m small small' e. omega arith;
  no_map = λ n k small small' e. omega arith;
  no_self = λ n small e. omega arith;
  self_no_map = λ k small e. omega arith;
}

-- At position 600, in the second block.
abbrev open_inode : Inode
open_inode = record zero_inode {
  self = 50;
  next = 100;
  size = 3000;
  pos = 600;
  current = 1001;
  current_parent = 100;
  iblock = 1;
}

abbrev start : Transfer Ram
start = record { cache = ram; errno = 0; inode = open_inode; buffer = λ i. 7; bytes_processed = 0 }

-- 1000 bytes from 600 on, in three blocks.
open_inode-Inside : Inside ram_store ram layout open_inode 600 1000
open_inode-Inside = record {
  laid = ram-IsLaid;
  self_at = refl;
  first_map = refl;
  placed = saved refl refl refl refl refl;
  some_bytes = omega arith;
  few_bytes = omega arith;
  in_blocks = omega arith;
  below = omega arith;
}

file_read_write-HasRead_example :
    (y : Transfer Ram) × (file_read_write ram_store 600 1000 true start ≡ ok tt y)
    × HasRead ram_store ram_disk layout start 600 1000 y
file_read_write-HasRead_example =
    file_read_write-HasRead ram_store-IsFileStore layout start 600 1000 open_inode-Inside
      (omega arith)

file_read_write-HasWritten_example :
    (y : Transfer Ram) × (file_read_write ram_store 600 1000 false start ≡ ok tt y)
    × HasWritten ram_store ram_disk layout start 600 1000 y
file_read_write-HasWritten_example =
    file_read_write-HasWritten ram_store-IsFileStore layout start 600 1000 open_inode-Inside

-- A read at 65024 gets the bytes from 0 on.
file_read_write_boundary_example :
    (y : Transfer Ram) × (file_read_write ram_store (map_bytes * suc 0) 700 true start ≡ ok tt y)
    × ((j : ℕ)
        → y.buffer j
          ≡ (if ltb j 700 then file_byte layout ram (map_bytes * 0 + j) else start.buffer j))
file_read_write_boundary_example =
    file_read_write_boundary ram_store-IsFileStore layout 0 700 start ram-IsLaid refl refl refl
      (omega arith) (omega arith) (omega arith) (omega arith) (omega arith)

abbrev open_files : Files Ram
open_files = record {
  file_tab = λ f. open_inode;
  file_desc = λ fd. if fd == 3 then some 2 else none;
  errno = 0;
  cache = ram;
}

kwrite-klseek-kread_example :
    let w = kwrite ram_store 60 open_files 3 (λ i. i % 256) 1000 in
    let k = klseek (file_io ram_store (λ c dev. (true, c))) 60 w.2 3 600 0 in
    let r = kread ram_store 61 k.1 3 (λ i. 0) 1000 in
    (w.0 ≡ 1000)
    × (k.0 ≡ 600)
    × (r.0 ≡ 1000)
    × ((j : ℕ) → r.1 j ≡ (if ltb j 1000 then j % 256 else 0))
kwrite-klseek-kread_example =
    kwrite-klseek-kread ram_store-IsFileStore (λ c dev. (true, c)) layout 60 open_files 3 2
      (λ i. i % 256) 1000 (λ i. 0) 61 (omega arith) refl (omega arith) (omega arith)
      (inr (omega arith)) open_inode-Inside
