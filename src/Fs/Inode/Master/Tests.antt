-- ===== src/Fs/Inode/Master/Tests.antt =====
-- The table of mounted file systems of fs/inode.c, with one device in it.
use ox.Base.{ℕ, ◌≢◌, ◌==◌, if◌then◌else◌, arith, false}
use ox.Fs.Inode.{inode_nopos}
use ox.Fs.Inode.Master.{Volumes, master_alloc, zero_master}
use ox.Fs.Inode.Master.Table.{IsTable, Allocated, master_alloc-Allocated}

abbrev one_device : Volumes ℕ
one_device = record {
  init_master = false;
  tab = λ i. if i == 3 then record zero_master { dev = 7 } else zero_master;
  memory = λ k i j. 0;
  errno = 0;
  cache = 0;
}

one_device-IsTable : IsTable one_device.tab
one_device-IsTable i j hi hj same used = ground arith

eight : ◌≢◌ {A = ℕ} 8 inode_nopos
eight = omega arith

master_alloc-Allocated_example :
    Allocated one_device 8 one_device-IsTable eight (master_alloc one_device 8)
master_alloc-Allocated_example = master_alloc-Allocated one_device 8 one_device-IsTable eight
