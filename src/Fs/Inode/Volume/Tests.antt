-- ===== src/Fs/Inode/Volume/Tests.antt =====
-- The making, the opening and the closing of a volume in fs/inode.c.
use ox.Base.{Bool, ℕ, ◌<◌, ◌≤◌, ◌≡◌, ◌≢◌, ◌↔◌, refl, arith, true, none, some}
use ox.Fs.Inode.{inode_ok, inode_nopos, block_size}
use ox.Fs.Inode.Master.{data_kind, zone_of, master_init, find_dev, master_alloc, zero_master, Entry}
use ox.Fs.Inode.Master.Table.{IsTable}
use ox.Fs.Inode.Device.Ram.{Ram, ram_io, ram_io-IsBlockIo, small_layout, small_volume}
use ox.Fs.Inode.Map.{block_of}
use ox.Fs.Inode.Volume.{
  format, RawIo, read_master, open_map, open_maps, open_loaded, open_entry, inode_dev_open,
  inode_dev_close,
}
use ox.Fs.Inode.Volume.Format.{IsPlace, wanted, format-capacity}
use ox.Fs.Inode.Volume.Mount.{Opened, inode_dev_open-Opened}

small-IsPlace : IsPlace 4096 10000
small-IsPlace = (omega arith, omega arith)

format-capacity_example :
    let m = format zero_master 4096 10000 in
    let z = zone_of data_kind m in
    ((ptr bit : ℕ)
      → z.map_start ≤ ptr
      → ptr < z.map_end
      → bit < block_size
      → block_of z ptr bit < z.end)
    ↔ (block_size ≤ wanted data_kind m)
format-capacity_example = format-capacity zero_master 4096 10000 small-IsPlace data_kind

abbrev no_entries : ℕ → Entry
no_entries j = record { path = none; dev = 0 }

small_volume-IsTable : IsTable small_volume.tab
small_volume-IsTable i j hi hj same used = ground arith

one : ◌≢◌ {A = ℕ} 1 inode_nopos
one = omega arith

-- A device in memory has nothing to write when it is closed.
abbrev ram_close : Ram → ℕ → Bool × Ram
ram_close c dev = (true, c)

closes : (inode_dev_close ram_io small_layout ram_close small_volume no_entries 1).0 ≡ inode_ok
unfolding inode_dev_close find_dev
closes = refl

abbrev raw_io : RawIo Ram
raw_io = record { read = λ c dev block out. (true, c block) }

initialised-IsTable : IsTable (master_init small_volume).tab
unfolding master_init
initialised-IsTable = small_volume-IsTable

opens : (inode_dev_open ram_io small_layout raw_io small_volume (some 1)).0 ≡ inode_ok
unfolding inode_dev_open open_entry read_master open_loaded open_maps open_map find_dev master_alloc
    master_init
opens = refl

inode_dev_open-Opened_example :
    Opened 1 (inode_dev_open ram_io small_layout raw_io small_volume (some 1)).1
inode_dev_open-Opened_example =
    inode_dev_open-Opened ram_io ram_io-IsBlockIo small_layout raw_io small_volume 1
      initialised-IsTable one opens
