-- ===== src/Calendar/Ordinal.antt =====
-- The ordinal of a date follows the order of dates.
use night_voyager.Base.{
  if◌then◌else◌, Bool-cases, ℕ, zero, suc, ◌+◌, ◌-◌, ◌≤◌, ◌<◌, ◌≡◌, ap, ◌↔◌, ◌⊎◌, inl, inr, true,
  false, arith,
}
use night_voyager.Base.Results.{ok}
use night_voyager.Calendar.{
  Date, is_leap, days_in_month, make_date, date_ltb, days_before_year, leap_day, month_offset,
  ordinal,
}

-- What `make_date` accepts.
abbrev pub IsDate : Date → Type 0
IsDate d = make_date d.year d.month d.day ≡ ok d

-- The days of a year.
abbrev days_in_year : ℕ → ℕ
days_in_year y = if is_leap y then 366 else 365

days_before_year-suc :
    (y : ℕ) → 1 ≤ y → days_before_year (suc y) ≡ days_before_year y + days_in_year y
unfolding days_before_year
days_before_year-suc y h = ground arith

days_before_year-le :
    (y k : ℕ) → 1 ≤ y → days_before_year y + days_in_year y ≤ days_before_year (k + suc y)
days_before_year-le y zero h =
    let same : 0 + suc y ≡ suc y = omega arith in
    omega (arith, days_before_year-suc y h, ap days_before_year same)
days_before_year-le y (suc k) h =
    let same : suc k + suc y ≡ suc (k + suc y) = omega arith in
    omega (
      arith,
      days_before_year-le y k h,
      days_before_year-suc (k + suc y) (omega arith),
      ap days_before_year same,
    )

-- The day within its year.
abbrev day_of_year : Date → ℕ
day_of_year d = month_offset d.month + leap_day d.year d.month + d.day

day_of_year-bounds :
    (d : Date) → IsDate d → (1 ≤ day_of_year d) × (day_of_year d ≤ days_in_year d.year)
unfolding make_date
day_of_year-bounds d h = ground arith

-- The days of a year before the first of a month.
abbrev month_start : ℕ → ℕ → ℕ
month_start y m = month_offset m + leap_day y m

month_start-suc :
    (y m : ℕ) → 1 ≤ m → m < 12 → month_start y (suc m) ≡ month_start y m + days_in_month y m
month_start-suc y zero h k = absurd (omega arith)
month_start-suc y (suc zero) h k = ground arith
month_start-suc y (suc (suc zero)) h k = ground arith
month_start-suc y (suc (suc (suc zero))) h k = ground arith
month_start-suc y (suc (suc (suc (suc zero)))) h k = ground arith
month_start-suc y (suc (suc (suc (suc (suc zero))))) h k = ground arith
month_start-suc y (suc (suc (suc (suc (suc (suc zero)))))) h k = ground arith
month_start-suc y (suc (suc (suc (suc (suc (suc (suc zero))))))) h k = ground arith
month_start-suc y (suc (suc (suc (suc (suc (suc (suc (suc zero)))))))) h k = ground arith
month_start-suc y (suc (suc (suc (suc (suc (suc (suc (suc (suc zero))))))))) h k = ground arith
month_start-suc y (suc (suc (suc (suc (suc (suc (suc (suc (suc (suc zero)))))))))) h k =
    ground arith
month_start-suc y (suc (suc (suc (suc (suc (suc (suc (suc (suc (suc (suc zero))))))))))) h k =
    ground arith
month_start-suc y (suc (suc (suc (suc (suc (suc (suc (suc (suc (suc (suc (suc m)))))))))))) h k =
    absurd (omega arith)

month_start-le :
    (y m k : ℕ)
    → 1 ≤ m
    → k + suc m ≤ 12
    → month_start y m + days_in_month y m ≤ month_start y (k + suc m)
month_start-le y m zero h b =
    let same : 0 + suc m ≡ suc m = omega arith in
    omega (arith, month_start-suc y m h (omega arith), ap (month_start y) same)
month_start-le y m (suc k) h b =
    let same : suc k + suc m ≡ suc (k + suc m) = omega arith in
    omega (
      arith,
      month_start-le y m k h (omega arith),
      month_start-suc y (k + suc m) (omega arith) (omega arith),
      ap (month_start y) same,
    )

month_start-lt :
    (a b : Date)
    → IsDate a
    → IsDate b
    → a.year ≡ b.year
    → a.month < b.month
    → month_start a.year a.month + days_in_month a.year a.month ≤ month_start b.year b.month
unfolding make_date
month_start-lt a b ha hb e h =
    let gap : (b.month - suc a.month) + suc a.month ≡ b.month = omega arith in
    let year_same : month_start a.year b.month ≡ month_start b.year b.month =
      ap (λ y. month_start y b.month) e in
    omega (
      arith,
      month_start-le a.year a.month (b.month - suc a.month) (ground arith) (ground arith),
      ap (month_start a.year) gap,
      year_same,
    )

-- The three ways in which a date is before another.
date_ltb_cases :
    (a b : Date)
    → date_ltb a b ≡ true
    → (a.year < b.year)
      ⊎ (((a.year ≡ b.year) × (a.month < b.month))
          ⊎ ((a.year ≡ b.year) × (a.month ≡ b.month) × (a.day < b.day)))
unfolding date_ltb
date_ltb_cases a b h = ground arith

day-bounds :
    (d : Date) → IsDate d → (1 ≤ d.year) × (1 ≤ d.day) × (d.day ≤ days_in_month d.year d.month)
unfolding make_date
day-bounds d h = ground arith

ordinal-eq : (d : Date) → ordinal d ≡ days_before_year d.year + day_of_year d
unfolding ordinal
ordinal-eq d = omega arith

later_year : (a b : Date) → IsDate a → IsDate b → a.year < b.year → ordinal a < ordinal b
later_year a b ha hb h =
    let gap : (b.year - suc a.year) + suc a.year ≡ b.year = omega arith in
    omega (
      arith,
      days_before_year-le a.year (b.year - suc a.year) (day-bounds a ha).0,
      ap days_before_year gap,
      (day_of_year-bounds a ha).1,
      (day_of_year-bounds b hb).0,
      ordinal-eq a,
      ordinal-eq b,
    )

pub ordinal-lt : (a b : Date) → IsDate a → IsDate b → date_ltb a b ≡ true → ordinal a < ordinal b
ordinal-lt a b ha hb h = elim (date_ltb_cases a b h) [
  | inl year ↦ later_year a b ha hb year
  | inr (inl (year, month)) ↦ omega (
    arith,
    month_start-lt a b ha hb year month,
    day-bounds a ha,
    day-bounds b hb,
    ap days_before_year year,
    ordinal-eq a,
    ordinal-eq b,
  )
  | inr (inr (year, month, day)) ↦
      let same : month_start a.year a.month ≡ month_start b.year b.month = cc (year, month) in
      omega (arith, day, same, ap days_before_year year, ordinal-eq a, ordinal-eq b)
]

date_ltb-total : (a b : Date) → (date_ltb a b ≡ false) → (date_ltb b a ≡ true) ⊎ (a ≡ b)
unfolding date_ltb
date_ltb-total a b h = ground arith

-- The order of dates is that of their ordinals.
pub ordinal_iff :
    (a b : Date) → IsDate a → IsDate b → (date_ltb a b ≡ true) ↔ (ordinal a < ordinal b)
ordinal_iff a b ha hb = (
  ordinal-lt a b ha hb,
  λ h. elim (Bool-cases (date_ltb a b)) [
    | inl earlier ↦ earlier
    | inr not_earlier ↦ elim (date_ltb-total a b not_earlier) [
      | inl later ↦ absurd (omega (arith, h, ordinal-lt b a hb ha later))
      | inr same ↦ absurd (omega (arith, h, ap ordinal same))
    ]
  ],
)
