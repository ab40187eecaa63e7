-- ===== src/Kernel/Mktime.antt =====
-- kernel/mktime.c: the time from the fields of the clock. An `int` and a `long` are words that
-- represent them.
pub mod Calendar
use ox.Base.{
  ℕ, zero, suc, ◌+◌, ◌-◌, ◌*◌, ◌/◌, ◌%◌, ◌^◌, ◌<◌, ◌≤◌, ◌≡◌, refl, ap, Bool, true, false, ◌&&◌,
  ◌||◌, not, ◌==◌, Option, none, some, if◌then◌else◌, bit_and, arith, ltb, is_negative,
  Option-cases, Bool-cases, inl, inr,
}
use ox.Bits.{each, each-at}

pub record Tm : Type 0 where
  pub tm_sec : ℕ
  pub tm_min : ℕ
  pub tm_hour : ℕ
  pub tm_mday : ℕ
  pub tm_mon : ℕ
  pub tm_year : ℕ

abbrev pub minute : ℕ
minute = 60

abbrev pub hour : ℕ
hour = 3600

abbrev pub day : ℕ
day = 86400

abbrev pub year : ℕ
year = 31536000

-- `month[n]`, outside of the array `none`.
pub month : ℕ → Option ℕ
month n =
    if n == 0
    then some 0
    else if n == 1
    then some (day * 31)
    else if n == 2
    then some (day * (31 + 29))
    else if n == 3
    then some (day * (31 + 29 + 31))
    else if n == 4
    then some (day * (31 + 29 + 31 + 30))
    else if n == 5
    then some (day * (31 + 29 + 31 + 30 + 31))
    else if n == 6
    then some (day * (31 + 29 + 31 + 30 + 31 + 30))
    else if n == 7
    then some (day * (31 + 29 + 31 + 30 + 31 + 30 + 31))
    else if n == 8
    then some (day * (31 + 29 + 31 + 30 + 31 + 30 + 31 + 31))
    else if n == 9
    then some (day * (31 + 29 + 31 + 30 + 31 + 30 + 31 + 31 + 30))
    else if n == 10
    then some (day * (31 + 29 + 31 + 30 + 31 + 30 + 31 + 31 + 30 + 31))
    else if n == 11
    then some (day * (31 + 29 + 31 + 30 + 31 + 30 + 31 + 31 + 30 + 31 + 30))
    else none

-- The magnitude of a word, and `x / 4`, which rounds towards 0.
abbrev pub magnitude : ℕ → ℕ
magnitude x = if is_negative x then 2 ^ 32 - x else x

abbrev pub quarter : ℕ → ℕ
quarter x = if is_negative x then 2 ^ 32 - magnitude x / 4 else x / 4

-- A sum, a difference and a product with a positive constant of signed words; none where it does not
-- fit, which C leaves undefined.
pub add_int : ℕ → ℕ → Option ℕ
add_int a b =
    let sum = (a + b) % 2 ^ 32 in
    if (is_negative a && is_negative b && not (is_negative sum))
      || (not (is_negative a) && not (is_negative b) && is_negative sum)
    then none
    else some sum

abbrev pub negate : ℕ → ℕ
negate a = (2 ^ 32 - a) % 2 ^ 32

pub mul_int : ℕ → ℕ → Option ℕ
mul_int k x =
    if ltb (2 ^ 31 - 1) (k * magnitude x)
    then none
    else some (if is_negative x then negate (k * magnitude x) else k * x)

-- The arguments of the sums that follow the month, each with its unit.
abbrev pub add_units : ℕ → ℕ → Option ℕ → Option ℕ
add_units unit n none = none
add_units unit n (some res) = elim (mul_int unit n) [ none ↦ none | some m ↦ add_int res m ]

abbrev pub add_some : Option ℕ → Option ℕ → Option ℕ
add_some none b = none
add_some (some a) none = none
add_some (some a) (some b) = add_int a b

-- none is a number that does not fit, or a month outside of the table.
pub kmktime : Tm → Option ℕ
kmktime tm = elim (add_int tm.tm_year (negate 70)) [
  | none ↦ none
  | some y ↦
      let years = add_some (mul_int year y) (mul_int day (quarter ((y + 1) % 2 ^ 32))) in
      let with_month = add_some years (month tm.tm_mon) in
      let short = ltb 1 tm.tm_mon && not (magnitude ((y + 2) % 2 ^ 32) % 4 == 0) in
      let adjusted = if short then add_some with_month (some (negate day)) else with_month in
      let days = add_units day ((tm.tm_mday + 2 ^ 32 - 1) % 2 ^ 32) adjusted in
      let hours = add_units hour tm.tm_hour days in
      let minutes = add_units minute tm.tm_min hours in add_some minutes (some tm.tm_sec)
]

-- `BCD_TO_BIN`.
pub bcd_to_bin : ℕ → ℕ
bcd_to_bin val = bit_and val 15 + val / 2 ^ 4 * 10

-- The fields of ktime from the registers of the clock.
pub from_registers : Tm → Tm
from_registers tm = record {
  tm_sec = bcd_to_bin tm.tm_sec;
  tm_min = bcd_to_bin tm.tm_min;
  tm_hour = bcd_to_bin tm.tm_hour;
  tm_mday = bcd_to_bin tm.tm_mday;
  tm_mon = (bcd_to_bin tm.tm_mon + 2 ^ 32 - 1) % 2 ^ 32;
  tm_year = bcd_to_bin tm.tm_year;
}
