-- ===== src/Fs/Inode/Volume/CachedTests.antt =====
-- The closing of a volume through the buffer cache.
use ox.Base.{ℕ, ◌≡◌, ◌≢◌, refl, arith, true, none, [], ◌==◌, ◌&&◌, if◌then◌else◌}
use ox.Fs.Dev.{Sector, Ata, dev_write, dev_scan, dev_close}
use ox.Fs.Block.{
  Store, block_ok, block_write, write_miss, find_slot, search, scan, scan_loop, visit, differ,
}
use ox.Fs.Block.Flush.{
  free_slot, block_sync, sync_loop, sync_step, block_disk_write, put_disk, block_close,
}
use ox.Fs.Inode.{inode_ok, inode_nopos}
use ox.Fs.Inode.Master.{Volumes, find_dev, Entry}
use ox.Fs.Inode.Master.Table.{IsTable}
use ox.Fs.Inode.Device.Cache.{cache_io, cache_close}
use ox.Fs.Inode.Device.Ram.{small_layout, small_volume}
use ox.Fs.Inode.Volume.{inode_dev_close}
use ox.Fs.Inode.Volume.Close.{Closed, inode_dev_close_synced}

abbrev Disk : Type 0
Disk = ℕ → ℕ → Sector

-- A disk with two drives on which every transfer succeeds.
abbrev drives : Ata Disk
drives = record {
  nr_drives = 2;
  sector = λ d drive lba. d drive lba;
  read = λ d drive lba buf. (0, d drive lba);
  write = λ d drive lba buf.
      (0, λ drive' lba'. if (drive' == drive) && (lba' == lba) then buf else d drive' lba');
}

abbrev cached_volume : Volumes (Store Disk)
cached_volume = record {
  init_master = true;
  tab = small_volume.tab;
  memory = small_volume.memory;
  errno = 0;
  cache = record {
    init = true;
    curr = 0;
    highest = 0;
    slot = λ i. free_slot [];
    disk = λ drive lba. [];
  };
}

abbrev no_paths : ℕ → Entry
no_paths j = record { path = none; dev = 0 }

cached_volume-IsTable : IsTable cached_volume.tab
cached_volume-IsTable i j hi hj same used = ground arith

real_device : ◌≢◌ {A = ℕ} 1 inode_nopos
real_device = omega arith

cached_closes :
    (inode_dev_close
      (cache_io drives)
      small_layout
      (cache_close drives true)
      cached_volume
      no_paths
      1).0
    ≡ inode_ok
unfolding inode_dev_close find_dev cache_io cache_close block_write write_miss find_slot search scan
    scan_loop visit dev_write dev_scan dev_close block_close block_sync sync_loop sync_step
    block_disk_write put_disk differ
cached_closes = refl

inode_dev_close_synced_example :
    let r =
      inode_dev_close
        (cache_io drives)
        small_layout
        (cache_close drives true)
        cached_volume
        no_paths
        1 in
    (c : Closed (cache_io drives) small_layout (cache_close drives true) cached_volume 1 r)
    × (block_sync drives c.before 1 ≡ (block_ok, r.1.cache))
inode_dev_close_synced_example =
    inode_dev_close_synced drives small_layout true cached_volume no_paths 1 cached_volume-IsTable
      real_device cached_closes
