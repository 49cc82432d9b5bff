-- ===== src/Calendar.antt =====
-- `datetime.date` as the code uses it: construction with its range checks, the order of dates,
-- and `(a - b).days` through the proleptic Gregorian ordinal.
pub mod Ordinal
use night_voyager.Base.{
  ltb, leb, nat_beq, if◌then◌else◌, HasEq, ◌==◌, nat_eq, string_eq, option_eq, list_eq, ℕ, ◌+◌, ◌-◌,
  ◌*◌, ◌/◌, ◌%◌, ◌≡◌, ◌↔◌, Bool, true, not, ◌&&◌, ◌||◌, arith,
}
use night_voyager.Base.Results.{Result, ok, err}

pub record Date : Type 0 where
  pub year : ℕ
  pub month : ℕ
  pub day : ℕ

abbrev pub date_beq : Date → Date → Bool
date_beq a b = nat_beq a.year b.year && (nat_beq a.month b.month && nat_beq a.day b.day)

pub date_beq_iff : (a b : Date) → (date_beq a b ≡ true) ↔ (a ≡ b)
date_beq_iff a b = ground arith

instance abbrev pub date_eq : HasEq Date
date_eq = record { eqb = date_beq; eqb_iff = date_beq_iff }

abbrev pub is_leap : ℕ → Bool
is_leap y = (y % 4 == 0) && (not (y % 100 == 0) || (y % 400 == 0))

abbrev pub days_in_month : ℕ → ℕ → ℕ
days_in_month y m =
    if m == 2
    then (if is_leap y then 29 else 28)
    else if (m == 4) || ((m == 6) || ((m == 9) || (m == 11)))
    then 30
    else 31

-- `date(year, month, day)`
unfoldable pub make_date : ℕ → ℕ → ℕ → Result Date
make_date y m d =
    if not (leb 1 y && leb y 9999)
    then err "year is out of range"
    else if not (leb 1 m && leb m 12)
    then err "month must be in 1..12"
    else if not (leb 1 d && leb d (days_in_month y m))
    then err "day is out of range for month"
    else ok (record { year = y; month = m; day = d })

-- `a < b` compares year, month and day in turn.
unfoldable pub date_ltb : Date → Date → Bool
date_ltb a b =
    ltb a.year b.year
    || (nat_beq a.year b.year
        && (ltb a.month b.month || (nat_beq a.month b.month && ltb a.day b.day)))

-- The days before 1 January of a year.
unfoldable pub days_before_year : ℕ → ℕ
days_before_year y = let p = y - 1 in p * 365 + p / 4 - p / 100 + p / 400

abbrev pub leap_day : ℕ → ℕ → ℕ
leap_day y m = if leb 3 m && is_leap y then 1 else 0

-- The days before the first of a month, in a year that is no leap year.
abbrev pub month_offset : ℕ → ℕ
month_offset m =
    if m == 1
    then 0
    else if m == 2
    then 31
    else if m == 3
    then 59
    else if m == 4
    then 90
    else if m == 5
    then 120
    else if m == 6
    then 151
    else if m == 7
    then 181
    else if m == 8
    then 212
    else if m == 9
    then 243
    else if m == 10
    then 273
    else if m == 11
    then 304
    else 334

-- `date.toordinal()`
unfoldable pub ordinal : Date → ℕ
ordinal d = days_before_year d.year + month_offset d.month + leap_day d.year d.month + d.day
