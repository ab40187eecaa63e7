-- ===== src/Drivers/Tests.antt =====
-- Addresses on a disk for platform/i386/drivers/src/block/pio/pioutil.c.
use ox.Base.{◌≡◌, arith}
use ox.Drivers.Chs.{get_chs, get_lba, get_lba-get_chs}

get_lba-get_chs_example : get_lba (get_chs 1234567) ≡ 1234567
get_lba-get_chs_example = get_lba-get_chs 1234567 (omega arith)
