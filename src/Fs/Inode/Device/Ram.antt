-- ===== src/Fs/Inode/Device/Ram.antt =====
-- A device in memory as the layer of blocks of fs/inode.c, and a small file system on it: the data
-- for tests.
use ox.Base.{ℕ, ◌%◌, refl, arith, true, ◌==◌, if◌then◌else◌, update}
use ox.Fs.Inode.{inode_magic, first_block}
use ox.Fs.Inode.Master.{Master, Volumes, zero_master}
use ox.Fs.Inode.Device.{BlockIo, IsBlockIo, Layout}

-- The bytes of each block, of all devices alike.
abbrev pub Ram : Type 0
Ram = ℕ → ℕ → ℕ

abbrev pub ram_io : BlockIo Ram
ram_io = record {
  read = λ c dev block out. (true, λ i. c block i % 256, c);
  write = λ c dev block bytes. (true, update c block bytes);
}

pub ram_io-IsBlockIo : IsBlockIo ram_io
ram_io-IsBlockIo = record {
  read_bytes = λ c dev block out i. omega arith;
  read_back = λ c dev block bytes out is plain e. (refl, λ i small. ground (arith, is i));
}

abbrev pub small_master : Master
small_master = record {
  magic = inode_magic;
  init_fs = 1;
  block_start = first_block;
  imap = record { map_start = 4097; map_end = 4098; start = 4100; end = 5000; ptr = 4097; bit = 0 };
  bmap = record { map_start = 4098; map_end = 4100; start = 5000; end = 8600; ptr = 4098; bit = 6 };
  inodes = 900;
  blocks = 3600;
  dev = 1;
}

-- A master inode is told by its first byte.
abbrev pub small_layout : Layout
small_layout = record {
  image = λ m i. if (i == 0) then m.init_fs % 256 else 0;
  parse = λ bytes. if bytes 0 == 1 then small_master else zero_master;
}

-- Of the data map the bits 6 and 7 are set.
abbrev pub small_map : ℕ → ℕ
small_map i = if i == 0 then 192 else 0

abbrev pub small_volume : Volumes Ram
small_volume = record {
  init_master = true;
  tab = λ i. if i == 0 then small_master else zero_master;
  memory = λ k i. small_map;
  errno = 0;
  cache = λ block i. if block == first_block then (if i == 0 then 1 else 0) else 0;
}
