-- ===== src/Drivers/Chs.antt =====
-- Addresses of the disk driver, platform/i386/drivers/src/block/pio/pioutil.c: sectors by number and
-- by cylinder, head and sector. A `char` is a byte.
use ox.Base.{
  ℕ, ◌+◌, ◌-◌, ◌*◌, ◌/◌, ◌%◌, ◌^◌, ◌<◌, ◌≤◌, ◌≡◌, refl, Bool, true, ◌==◌, bit_and, bit_or, arith,
  ==_iff, ap, sym, ◌∙◌,
}
use ox.Bits.{each, each-at}

abbrev pub hpc : ℕ
hpc = 16

abbrev pub spt : ℕ
spt = 63

pub record Chs : Type 0 where
  pub head : ℕ
  pub sector : ℕ
  pub cyl1 : ℕ
  pub cyl2 : ℕ

-- `cylinder` is an `unsigned short`.
pub get_chs : ℕ → Chs
get_chs lba =
    let cylinder = lba / (spt * hpc) % 2 ^ 16 in
    record {
      head = lba / spt % hpc;
      sector = lba % spt + 1;
      cyl1 = bit_and cylinder 0xFF % 256;
      cyl2 = cylinder / 2 ^ 8;
    }

pub get_lba : Chs → ℕ
get_lba c =
    let cylinder = bit_or (c.cyl2 * 2 ^ 8) c.cyl1 % 2 ^ 16 in
    ((cylinder * hpc + c.head) * spt + c.sector + 2 ^ 32 - 1) % 2 ^ 32

pub get_drive_head : ℕ → ℕ → ℕ
get_drive_head drive head = bit_or (bit_or 160 (bit_and drive 1 * 2 ^ 4)) (bit_and head 0xF)

joined : ℕ → ℕ → Bool
joined high low = bit_or (high * 256) low == high * 256 + low

joined_table : each (λ high. each (joined high) 256) 256 ≡ true
unfolding each joined
joined_table = refl

joined_lem : (high low : ℕ) → high < 256 → low < 256 → bit_or (high * 256) low ≡ high * 256 + low
unfolding joined
joined_lem high low h l =
    let row = each-at (λ n. each (joined n) 256) 256 high joined_table h in
    (==_iff (bit_or (high * 256) low) (high * 256 + low)).0 (each-at (joined high) 256 low row l)

low_byte : ℕ → ℕ → Bool
low_byte high low = bit_and (high * 256 + low) 0xFF == low

low_table : each (λ high. each (low_byte high) 256) 256 ≡ true
unfolding each low_byte
low_table = refl

low_byte_lem : (x : ℕ) → x < 2 ^ 16 → bit_and x 0xFF ≡ x % 256
unfolding low_byte
low_byte_lem x small =
    let row = each-at (λ n. each (low_byte n) 256) 256 (x / 256) low_table (omega arith) in
    let it =
      (==_iff (bit_and (x / 256 * 256 + x % 256) 0xFF) (x % 256)).0
        (each-at (low_byte (x / 256)) 256 (x % 256) row (omega arith)) in
    let whole : x / 256 * 256 + x % 256 ≡ x = omega arith in
    ap (λ y. bit_and y 0xFF) (sym whole) ∙ it

-- For a sector number below 65536 cylinders of 16 heads of 63 sectors: get_lba of what get_chs
-- gives is the number.
pub get_lba-get_chs : (lba : ℕ) → lba < 2 ^ 16 * (spt * hpc) → get_lba (get_chs lba) ≡ lba
unfolding get_lba get_chs
get_lba-get_chs lba small =
    let cylinder = lba / (spt * hpc) % 2 ^ 16 in
    let low = low_byte_lem cylinder (omega arith) in
    let both = joined_lem (cylinder / 2 ^ 8) (cylinder % 256) (omega arith) (omega arith) in
    let same : cylinder % 256 % 256 ≡ cylinder % 256 = omega arith in
    rw low (rw same (rw both (omega arith)))

-- An address that the driver can use.
pub record IsAddress (c : Chs) : Type 0 where
  pub head : c.head < hpc
  pub sector : (1 ≤ c.sector) × (c.sector ≤ spt)
  pub cyl1 : c.cyl1 < 256
  pub cyl2 : c.cyl2 < 256

pub get_chs-IsAddress : (lba : ℕ) → IsAddress (get_chs lba)
unfolding get_chs
get_chs-IsAddress lba = record {
  head = omega arith;
  sector = (omega arith, omega arith);
  cyl1 = omega arith;
  cyl2 = omega arith;
}

same_fields :
    (a b : Chs) → a.head ≡ b.head → a.sector ≡ b.sector → a.cyl1 ≡ b.cyl1 → a.cyl2 ≡ b.cyl2 → a ≡ b
same_fields a b h s c d = ground arith

get_lba_lem :
    (c : Chs)
    → IsAddress c
    → get_lba c + 1 ≡ ((c.cyl2 * 256 + c.cyl1) * hpc + c.head) * spt + c.sector
unfolding get_lba
get_lba_lem c is =
    let head = is.head in
    let sector = is.sector in
    let cyl1 = is.cyl1 in
    let cyl2 = is.cyl2 in rw (joined_lem c.cyl2 c.cyl1 cyl2 cyl1) (omega arith)

-- For an address with a head below 16, a sector from 1 to 63 and two bytes of cylinder: get_chs
-- of the number that get_lba gives is the address.
pub get_chs-get_lba : (c : Chs) → IsAddress c → get_chs (get_lba c) ≡ c
unfolding get_chs
get_chs-get_lba c is =
    let head = is.head in
    let sector = is.sector in
    let cyl1 = is.cyl1 in
    let cyl2 = is.cyl2 in
    let n = get_lba_lem c is in
    let cylinder : get_lba c / (spt * hpc) % 2 ^ 16 ≡ c.cyl2 * 256 + c.cyl1 = omega arith in
    let low = low_byte_lem (get_lba c / (spt * hpc) % 2 ^ 16) (omega arith) in
    same_fields (get_chs (get_lba c)) c (omega arith) (omega arith) (rw low (omega arith))
      (omega arith)

drive_head : ℕ → ℕ → Bool
drive_head drive head = get_drive_head drive head == 160 + drive * 16 + head

drive_table : each (λ drive. each (drive_head drive) 16) 2 ≡ true
unfolding each drive_head get_drive_head
drive_table = refl

-- For a drive 0 or 1 and a head below 16: get_drive_head has bits 7 and 5 set, the drive in bit 4
-- and the head in the bits below.
pub get_drive_head_lem :
    (drive head : ℕ) → drive < 2 → head < hpc → get_drive_head drive head ≡ 160 + drive * 16 + head
unfolding drive_head
get_drive_head_lem drive head d h =
    let row = each-at (λ n. each (drive_head n) 16) 2 drive drive_table d in
    (==_iff (get_drive_head drive head) (160 + drive * 16 + head)).0
      (each-at (drive_head drive) 16 head row h)
