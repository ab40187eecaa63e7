-- ===== src/Fs/Dev.antt =====
-- fs/dev.c in its kernel build. The disk behind it is the ATA driver of
-- platform/i386/drivers/src/block/pio, whose transfers are port input and output: it is the
-- parameter `ata`, with a disk state of any type. An `int dev` is cut to the driver's
-- `unsigned char drive`.
use ox.Base.{ℕ, ◌-◌, ◌%◌, ◌^◌, ◌≡◌, ◌≢◌, ◌⊎◌, List, ◌==◌, if◌then◌else◌, ltb}

-- The bytes of a sector, DEV_BLOCK_SIZE of them. They are moved and compared, never computed with.
abbrev pub Sector : Type 0
Sector = List ℕ

-- `dev_rtvl_t`.
pub data DevRtvl : Type 0 where
  dev_ok dev_fail dev_param : DevRtvl

-- DEV_NODEV is (int)-1.
abbrev pub dev_nodev : ℕ
dev_nodev = 2 ^ 32 - 1

-- The driver: `ata_read` and `ata_write` return 0 for success. A read gives the buffer that it
-- leaves, a write the disk. `sector` is what the disk holds, for statements only.
pub record Ata (D : Type 0) : Type 0 where
  pub nr_drives : ℕ
  pub sector : D → ℕ → ℕ → Sector
  pub read : D → ℕ → ℕ → Sector → ℕ × Sector
  pub write : D → ℕ → ℕ → Sector → ℕ × D

-- What a disk driver is expected to do: a read that succeeds gives the sector, a write that succeeds
-- stores it, and no write touches another sector. Nothing is asked of a transfer that fails.
pub record IsDisk {D : Type 0} (ata : Ata D) : Type 0 where
  pub read_sector :
      (d : D) (drive lba : ℕ) (buf : Sector)
      → (ata.read d drive lba buf).0 ≡ 0
      → (ata.read d drive lba buf).1 ≡ ata.sector d drive lba
  pub write_sector :
      (d : D) (drive lba : ℕ) (buf : Sector)
      → (ata.write d drive lba buf).0 ≡ 0
      → ata.sector (ata.write d drive lba buf).1 drive lba ≡ buf
  pub write_other :
      (d : D) (drive lba : ℕ) (buf : Sector) (drive' lba' : ℕ)
      → (drive' ≢ drive) ⊎ (lba' ≢ lba)
      → ata.sector (ata.write d drive lba buf).1 drive' lba' ≡ ata.sector d drive' lba'

module _ {D : Type 0} (ata : Ata D) where
  -- `*dev` keeps its value where there is no drive.
  unfoldable pub dev_open : ℕ → DevRtvl × ℕ
  dev_open dev = (dev_ok, if ltb 0 ata.nr_drives then 0 else dev)

  unfoldable pub dev_read : D → ℕ → ℕ → Sector → DevRtvl × Sector
  dev_read d dev block buf =
      let (rc, buf') = ata.read d (dev % 256) block buf in
      (if rc == 0 then dev_ok else dev_fail, buf')

  unfoldable pub dev_write : D → ℕ → ℕ → Sector → DevRtvl × D
  dev_write d dev block buf =
      let (rc, d') = ata.write d (dev % 256) block buf in (if rc == 0 then dev_ok else dev_fail, d')

  -- The PIO driver seeks in its transfers.
  unfoldable pub dev_scan : D → ℕ → ℕ → DevRtvl
  dev_scan d dev block = dev_ok

unfoldable pub dev_close : ℕ → DevRtvl
dev_close dev = dev_ok
