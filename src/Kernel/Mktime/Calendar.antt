-- ===== src/Kernel/Mktime/Calendar.antt =====
-- The calendar, for kmktime of kernel/mktime.c.
use ox.Base.{
  ℕ, zero, suc, ◌+◌, ◌-◌, ◌*◌, ◌/◌, ◌%◌, ◌^◌, ◌<◌, ◌≤◌, ◌≡◌, refl, ap, ◌∙◌, Bool, true, false, ◌&&◌,
  not, ◌==◌, none, some, if◌then◌else◌, arith, is_negative, ltb, Option-cases, Bool-cases, inl, inr,
}
use ox.Bits.{each, each-at}
use ox.Kernel.Mktime.{
  Tm, minute, hour, day, month, magnitude, quarter, add_int, mul_int, negate, add_units, add_some,
  year, kmktime, bcd_to_bin, from_registers,
}

-- The calendar: each fourth year from 1972 on has a day more in February.
abbrev pub is_leap : ℕ → Bool
is_leap y = (y + 1970) % 4 == 0

pub days_in_month : ℕ → Bool → ℕ
days_in_month m leap =
    if m == 1
    then (if leap then 29 else 28)
    else if (m == 3)
    then 30
    else if (m == 5)
    then 30
    else if (m == 8)
    then 30
    else if (m == 10)
    then 30
    else 31

pub days_before_month : ℕ → Bool → ℕ
days_before_month zero leap = 0
days_before_month (suc m) leap = days_before_month m leap + days_in_month m leap

pub days_before_year : ℕ → ℕ
days_before_year zero = 0
days_before_year (suc y) = days_before_year y + (if is_leap y then 366 else 365)

-- The seconds from the start of 1970 to a time on a day, in the year 1970 + y.
pub seconds : ℕ → Tm → ℕ
seconds y tm =
    (days_before_year y + days_before_month tm.tm_mon (is_leap y) + tm.tm_mday - 1) * day
    + tm.tm_hour * hour
    + tm.tm_min * minute
    + tm.tm_sec

days_before_year_lem : (y : ℕ) → days_before_year y ≡ 365 * y + (y + 1) / 4
unfolding days_before_year
days_before_year_lem zero = omega arith
days_before_year_lem (suc y) = ground (arith, days_before_year_lem y)

month_row : ℕ → Bool
month_row m = elim (month m) [
  | none ↦ false
  | some before ↦
      (before == day * days_before_month m true)
      && (before == day * (days_before_month m false + (if ltb 1 m then 1 else 0)))
]

month_table : each month_row 12 ≡ true
unfolding each month_row month days_before_month days_in_month
month_table = refl

month_lem :
    (m : ℕ) (leap : Bool)
    → m < 12
    → month m ≡ some (day * (days_before_month m leap + (if ltb 1 m && not leap then 1 else 0)))
unfolding month_row
month_lem m leap h =
    let row = each-at month_row 12 m month_table h in
    elim (Option-cases (month m)) [
      | inl e ↦ absurd (ground (arith, row, e))
      | inr (before, e) ↦ elim (Bool-cases leap) [
        | inl yes' ↦ ground (arith, row, e, yes')
        | inr no' ↦ ground (arith, row, e, no')
      ]
    ]

days_before_month-le : (m : ℕ) (leap : Bool) → days_before_month m leap ≤ 31 * m
unfolding days_before_month days_in_month
days_before_month-le zero leap = omega arith
days_before_month-le (suc m) leap = ground (arith, days_before_month-le m leap)

-- Sums and products that fit.
add_int_plain : (a b : ℕ) → a + b < 2 ^ 31 → add_int a b ≡ some (a + b)
unfolding add_int
add_int_plain a b small = ground (arith, small)

mul_int_plain : (k x : ℕ) → k * x < 2 ^ 31 → x < 2 ^ 31 → mul_int k x ≡ some (k * x)
unfolding mul_int
mul_int_plain k x small word =
    let plain : is_negative x ≡ false = ground arith in
    let fits : ltb (2 ^ 31 - 1) (k * x) ≡ false = ground (arith, small) in rw (plain, fits) refl

-- The day that a year which is not a leap year lacks.
less_day : (a : ℕ) → day ≤ a → a < 2 ^ 31 → add_int a (negate day) ≡ some (a - day)
unfolding add_int
less_day a enough small = ground (arith, enough, small)

units_one :
    (unit n res : ℕ)
    → res + unit * n < 2 ^ 31
    → n < 2 ^ 31
    → add_units unit n (some res) ≡ some (res + unit * n)
units_one unit n res small word =
    rw (add_units, mul_int_plain unit n (omega (arith, small)) word)
      (add_int_plain res (unit * n) small)

-- The days, hours, minutes and seconds behind the month.
units_lem :
    (res : ℕ) (tm : Tm)
    → (1 ≤ tm.tm_mday) × (tm.tm_mday ≤ 31)
    → res + day * (tm.tm_mday - 1) + hour * tm.tm_hour + minute * tm.tm_min + tm.tm_sec < 2 ^ 31
    → add_some
        (add_units minute tm.tm_min (
          add_units hour tm.tm_hour
            (add_units day ((tm.tm_mday + 2 ^ 32 - 1) % 2 ^ 32) (some res))))
        (some tm.tm_sec)
      ≡ some (res + day * (tm.tm_mday - 1) + hour * tm.tm_hour + minute * tm.tm_min + tm.tm_sec)
units_lem res tm mday small =
    let back : (tm.tm_mday + 2 ^ 32 - 1) % 2 ^ 32 ≡ tm.tm_mday - 1 = omega (arith, mday) in
    let d = res + day * (tm.tm_mday - 1) in
    let h = d + hour * tm.tm_hour in
    let m = h + minute * tm.tm_min in
    let e1 = units_one day (tm.tm_mday - 1) res (omega (arith, small)) (omega (arith, mday)) in
    let e2 = units_one hour tm.tm_hour d (omega (arith, small)) (omega (arith, small)) in
    let e3 = units_one minute tm.tm_min h (omega (arith, small)) (omega (arith, small)) in
    rw back (
      ap (λ o. add_some (add_units minute tm.tm_min (add_units hour tm.tm_hour o)) (some tm.tm_sec))
        e1
      ∙ ap (λ o. add_some (add_units minute tm.tm_min o) (some tm.tm_sec)) e2
      ∙ ap (λ o. add_some o (some tm.tm_sec)) e3
      ∙ add_int_plain m tm.tm_sec (omega (arith, small)))

from_year :
    (y : ℕ) (tm : Tm) → y < 68 → tm.tm_year ≡ y + 70 → add_int tm.tm_year (negate 70) ≡ some y
unfolding add_int
from_year y tm small is = ground (arith, small, is)

-- kmktime for a year from 1970 to 2037 and fields in their ranges: no sum or product overflows a
-- signed int, and the result is the seconds from the start of 1970 by the calendar in which each
-- fourth year has a day more in February.
pub kmktime-seconds :
    (y : ℕ) (tm : Tm)
    → y < 68
    → tm.tm_year ≡ y + 70
    → tm.tm_mon < 12
    → (1 ≤ tm.tm_mday) × (tm.tm_mday ≤ 31)
    → tm.tm_hour < 24
    → tm.tm_min < 60
    → tm.tm_sec < 60
    → kmktime tm ≡ some (seconds y tm)
unfolding kmktime seconds
kmktime-seconds y tm small is mon mday hours minutes secs =
    let table = month_lem tm.tm_mon (is_leap y) mon in
    let years = days_before_year_lem y in
    let y' : add_int tm.tm_year (negate 70) ≡ some y = from_year y tm small is in
    let bound = days_before_month-le tm.tm_mon (is_leap y) in
    let before = days_before_month tm.tm_mon (is_leap y) in
    let later : (magnitude ((y + 2) % 2 ^ 32) % 4 == 0) ≡ is_leap y = ground arith in
    let fourth : quarter ((y + 1) % 2 ^ 32) ≡ (y + 1) / 4 = ground arith in
    let y1 = mul_int_plain year y (omega arith) (omega arith) in
    let d1 = mul_int_plain day ((y + 1) / 4) (omega arith) (omega arith) in
    let sum1 = add_int_plain (year * y) (day * ((y + 1) / 4)) (omega arith) in
    let first = year * y + day * ((y + 1) / 4) in
    rw (kmktime, y', fourth, later, y1, d1, table)
      (elim (Bool-cases (ltb 1 tm.tm_mon && not (is_leap y))) [
        | inl short ↦
            let sum2 = add_int_plain first (day * (before + 1)) (omega (arith, bound)) in
            let less = less_day (first + day * (before + 1)) (omega arith) (omega (arith, bound)) in
            let rest =
              units_lem (first + day * (before + 1) - day) tm mday
                (omega (arith, bound, mday, hours, minutes, secs)) in
            rw (short, sum1, sum2, less) (rest ∙ ap some (omega (arith, years, mday)))
        | inr full ↦
            let sum2 = add_int_plain first (day * (before + 0)) (omega (arith, bound)) in
            let rest =
              units_lem (first + day * (before + 0)) tm mday
                (omega (arith, bound, mday, hours, minutes, secs)) in
            rw (full, sum1, sum2) (rest ∙ ap some (omega (arith, years, mday)))
      ])

-- A number below 100 in a register: its two digits.
abbrev pub digits_of : ℕ → ℕ
digits_of n = n / 10 * 16 + n % 10

bcd_row : ℕ → Bool
bcd_row n = bcd_to_bin (digits_of n) == n

bcd_table : each bcd_row 100 ≡ true
unfolding each bcd_row bcd_to_bin
bcd_table = refl

bcd_to_bin_lem : (n : ℕ) → n < 100 → bcd_to_bin (digits_of n) ≡ n
unfolding bcd_row
bcd_to_bin_lem n h = ground (arith, each-at bcd_row 100 n bcd_table h)

-- The registers of the clock at a time.
abbrev pub registers : Tm → Tm
registers tm = record {
  tm_sec = digits_of tm.tm_sec;
  tm_min = digits_of tm.tm_min;
  tm_hour = digits_of tm.tm_hour;
  tm_mday = digits_of tm.tm_mday;
  tm_mon = digits_of (tm.tm_mon + 1);
  tm_year = digits_of tm.tm_year;
}

-- For a time from 1970 to 1999 with fields in their ranges: from the registers of the clock,
-- which hold each field as two decimal digits and the month from 1, ktime's conversion and
-- kmktime give the seconds from the start of 1970.
pub kmktime-from_registers :
    (y : ℕ) (tm : Tm)
    → y < 30
    → tm.tm_year ≡ y + 70
    → tm.tm_mon < 12
    → (1 ≤ tm.tm_mday) × (tm.tm_mday ≤ 31)
    → tm.tm_hour < 24
    → tm.tm_min < 60
    → tm.tm_sec < 60
    → kmktime (from_registers (registers tm)) ≡ some (seconds y tm)
unfolding from_registers
kmktime-from_registers y tm small is mon mday hours minutes secs =
    let s = bcd_to_bin_lem tm.tm_sec (omega arith) in
    let m = bcd_to_bin_lem tm.tm_min (omega arith) in
    let h = bcd_to_bin_lem tm.tm_hour (omega arith) in
    let d = bcd_to_bin_lem tm.tm_mday (omega arith) in
    let n = bcd_to_bin_lem (tm.tm_mon + 1) (omega arith) in
    let z = bcd_to_bin_lem tm.tm_year (omega arith) in
    let n' : (tm.tm_mon + 1 + 2 ^ 32 - 1) % 2 ^ 32 ≡ tm.tm_mon = omega arith in
    rw (s, m, h, d, n, z)
      (rw n' (kmktime-seconds y tm (omega arith) is mon mday hours minutes secs))
