-- ===== src/Fs/Inode/Volume/Format.antt =====
-- The regions that inode_create_fs of fs/inode.c lays out.
use ox.Base.{ℕ, ◌+◌, ◌*◌, ◌/◌, ◌%◌, ◌^◌, ◌<◌, ◌≤◌, ◌≡◌, ◌↔◌, refl, arith}
use ox.Fs.Inode.{block_size}
use ox.Fs.Inode.Master.{Zone, Kind, inode_kind, data_kind, Master, zone_of}
use ox.Fs.Inode.Map.{block_of}
use ox.Fs.Inode.Map.Bound.{IsMap}
use ox.Fs.Inode.Volume.{map_blocks, format}

-- How many inodes or blocks there are to be.
abbrev pub wanted : Kind → Master → ℕ
wanted inode_kind m = m.inodes
wanted data_kind m = m.blocks

-- The regions follow each other without a gap, from the block after the master inode on.
pub record IsLaidOut (m : Master) : Type 0 where
  pub first : m.imap.map_start ≡ m.block_start + 1
  pub imap_size : m.imap.map_end ≡ m.imap.map_start + map_blocks m.inodes
  pub bmap_start : m.bmap.map_start ≡ m.imap.map_end
  pub bmap_size : m.bmap.map_end ≡ m.bmap.map_start + map_blocks m.blocks
  pub inode_start : m.imap.start ≡ m.bmap.map_end
  pub inode_size : m.imap.end ≡ m.imap.start + m.inodes
  pub data_start : m.bmap.start ≡ m.imap.end
  pub data_size : m.bmap.end ≡ m.bmap.start + m.blocks
  pub last : m.bmap.end < 2 ^ 32

-- A size in blocks that comes from a 32-bit size in bytes, at a place where no number wraps round.
abbrev pub IsPlace : ℕ → ℕ → Type 0
IsPlace block_start size = (size < 2 ^ 23) × (block_start + 2 * size + 4 < 2 ^ 32)

map_blocks-bounds : (n : ℕ) → (0 < map_blocks n) × (map_blocks n ≤ n / 8 / block_size + 1)
map_blocks-bounds n = ground arith

-- A map laid out for so many bits.
module _ (z : Zone) (bits : ℕ) (size : z.map_end ≡ z.map_start + map_blocks bits)
    (own : z.end ≡ z.start + bits) (last : z.end < 2 ^ 32) (at : z.map_end < 2 ^ 32) where
  all_bits : block_size ≤ bits → block_size * map_blocks bits ≤ bits
  all_bits enough = ground arith

  zone-capacity :
      ((ptr bit : ℕ)
        → z.map_start ≤ ptr
        → ptr < z.map_end
        → bit < block_size
        → block_of z ptr bit < z.end)
      ↔ (block_size ≤ bits)
  zone-capacity = (
    λ f. ground (arith, f z.map_start bits, map_blocks-bounds bits),
    λ enough ptr bit lo hi small. ground (arith, all_bits enough),
  )

-- Each map has a block, and no number of theirs wraps round.
IsLaidOut-IsMap :
    (k : Kind) (m : Master) → IsLaidOut m → IsMap (zone_of k m) × ((zone_of k m).end < 2 ^ 32)
IsLaidOut-IsMap inode_kind m l =
    let a = map_blocks-bounds m.inodes in
    (
      record { some_block = omega (arith, a); begins = omega arith; last = omega arith },
      omega arith,
    )
IsLaidOut-IsMap data_kind m l =
    let b = map_blocks-bounds m.blocks in
    (
      record { some_block = omega (arith, b); begins = omega arith; last = omega arith },
      omega arith,
    )

module _ (m : Master) (block_start size : ℕ) (place : IsPlace block_start size) where
  -- For a size below 2^23 blocks, at a place where no number wraps round: inode_create_fs lays
  -- out the inode map, the data map, the inodes and the data one after the other without a gap
  -- from the block after the master inode on, with a fifth of the size as inodes, four fifths as
  -- data, and as many blocks of a map as its bits fill, rounded down, but one at least.
  pub format-IsLaidOut :
      IsLaidOut (format m block_start size)
      × ((format m block_start size).inodes ≡ size / 5)
      × ((format m block_start size).blocks ≡ size * 4 / 5)
      × ((format m block_start size).block_start ≡ block_start)
  unfolding format
  format-IsLaidOut =
      let inodes : size * 20 % 2 ^ 32 / 100 ≡ size / 5 = omega (arith, place.0) in
      let blocks : size * 80 % 2 ^ 32 / 100 ≡ size * 4 / 5 = omega (arith, place.0) in
      let a = map_blocks-bounds (size / 5) in
      let b = map_blocks-bounds (size * 4 / 5) in
      rw (inodes, blocks, format)
        (
          record {
            first = omega (arith, place.1);
            imap_size = ground (arith, a, b, place);
            bmap_start = refl;
            bmap_size = ground (arith, a, b, place);
            inode_start = refl;
            inode_size = ground (arith, a, b, place);
            data_start = refl;
            data_size = ground (arith, a, b, place);
            last = ground (arith, a, b, place);
          },
          refl,
          refl,
          refl,
        )

  abbrev made : Master
  made = format m block_start size

  -- For a size below 2^23 blocks, at a place where no number wraps round, and either kind of map
  -- that inode_create_fs lays out: all the bits of the map that the code uses have numbers inside
  -- their own region if and only if at least 512 inodes or blocks are wanted.
  pub format-capacity :
      (k : Kind)
      → let z = zone_of k made in
        ((ptr bit : ℕ)
          → z.map_start ≤ ptr
          → ptr < z.map_end
          → bit < block_size
          → block_of z ptr bit < z.end)
        ↔ (block_size ≤ wanted k made)
  format-capacity inode_kind =
      let l = format-IsLaidOut.0 in
      zone-capacity made.imap made.inodes l.imap_size l.inode_size
        (IsLaidOut-IsMap inode_kind made l).1 (IsLaidOut-IsMap inode_kind made l).0.last
  format-capacity data_kind =
      let l = format-IsLaidOut.0 in
      zone-capacity made.bmap made.blocks l.bmap_size l.data_size l.last
        (IsLaidOut-IsMap data_kind made l).0.last

  -- With fewer than 512 inodes the inode map has a bit whose inode block is the first data block.
  pub format-overlap :
      made.inodes < block_size
      → block_of made.imap made.imap.map_start made.inodes
        ≡ block_of made.bmap made.bmap.map_start 0
  format-overlap few =
      let l = format-IsLaidOut.0 in
      ground (
        arith, l.first, l.imap_size, l.bmap_start, l.bmap_size, l.inode_start, l.inode_size,
        l.data_start, l.data_size, l.last,
      )

  -- The regions after the maps take the whole size, so that the file system ends behind it.
  pub format-end : size % 5 ≡ 0 → block_start + size + 3 ≤ made.bmap.end
  format-end exact =
      let (l, inodes, blocks, at) = format-IsLaidOut in
      let a = map_blocks-bounds made.inodes in
      let b = map_blocks-bounds made.blocks in
      omega (
        arith, a, b, l.first, l.imap_size, l.bmap_start, l.bmap_size, l.inode_start, l.inode_size,
        l.data_start, l.data_size, inodes, blocks, at,
      )
