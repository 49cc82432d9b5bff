-- ===== src/Collaboration/Months.antt =====
-- An intake that is accepted as a fact can be read by the timeline policy.
use night_voyager.Base.Results.{ok, err}
use mathlib.Core.Option
use night_voyager.Base.Int.{ℤ, pos}
use night_voyager.Base.{
  if◌then◌else◌, and_true, ◌==◌, nat_eq, string_eq, option_eq, list_eq, ℕ, ◌+◌, ◌-◌, ◌*◌, ◌≤◌,
  String, ◌≡◌, ap, ◌∙◌, Bool, true, false, not, ◌&&◌, ◌||◌, Option, some, List, [], ◌∷◌, arith,
}
use night_voyager.Decision.Intake.{
  codes, is_space, is_digit, digits_from, python_int, split_dash, year_and_month,
}
use night_voyager.Collaboration.Models.{
  fact_key_eq, memory_candidate_state_eq, verification_decision_eq, is_month_number, matches_month,
  starts_with_zeros, validate_month,
}

abbrev digit : ℕ → ℕ
digit c = c - 48

-- The year and the month that the digits spell.
abbrev year_of : ℕ → ℕ → ℕ → ℕ → ℕ
year_of a b c d = (((0 * 10 + digit a) * 10 + digit b) * 10 + digit c) * 10 + digit d

abbrev month_of : ℕ → ℕ → ℕ
month_of e f = (0 * 10 + digit e) * 10 + digit f

-- A character that is a digit is no dash, sign, underscore or space.
digit_only :
    (c : ℕ)
    → is_digit c ≡ true
    → ((c == 45) ≡ false) × ((c == 43) ≡ false) × ((c == 95) ≡ false) × (is_space c ≡ false)
digit_only c h = ground arith

digits-step :
    (acc : ℕ) (seen : Bool) (c : ℕ) (cs : List ℕ)
    → is_digit c ≡ true
    → digits_from acc seen (c ∷ cs) ≡ digits_from (acc * 10 + (c - 48)) true cs
digits-step acc seen c cs h = ground (arith, h)

int_of_digits :
    (c : ℕ) (cs : List ℕ)
    → is_digit c ≡ true
    → python_int (c ∷ cs) ≡ Option.map pos (digits_from 0 false (c ∷ cs))
unfolding python_int
int_of_digits c cs h = let (minus, plus, _, space) = digit_only c h in rw (space, minus, plus, h)

split-skip :
    (c : ℕ) (cs before : List ℕ) (after : Option (List ℕ))
    → is_digit c ≡ true
    → split_dash cs ≡ (before, after)
    → split_dash (c ∷ cs) ≡ (c ∷ before, after)
unfolding split_dash
split-skip c cs before after h rest = rw ((digit_only c h).0, rest)

int_of_four :
    (a b c d : ℕ)
    → is_digit a ≡ true
    → is_digit b ≡ true
    → is_digit c ≡ true
    → is_digit d ≡ true
    → python_int (a ∷ b ∷ c ∷ d ∷ []) ≡ some (pos (year_of a b c d))
int_of_four a b c d ha hb hc hd =
    int_of_digits a (b ∷ c ∷ d ∷ []) ha
    ∙ ap (Option.map pos) (
        digits-step 0 false a (b ∷ c ∷ d ∷ []) ha
        ∙ digits-step (0 * 10 + digit a) true b (c ∷ d ∷ []) hb
        ∙ digits-step ((0 * 10 + digit a) * 10 + digit b) true c (d ∷ []) hc
        ∙ digits-step (((0 * 10 + digit a) * 10 + digit b) * 10 + digit c) true d [] hd)

int_of_two :
    (e f : ℕ)
    → is_digit e ≡ true
    → is_digit f ≡ true
    → python_int (e ∷ f ∷ []) ≡ some (pos (month_of e f))
int_of_two e f he hf =
    int_of_digits e (f ∷ []) he
    ∙ ap (Option.map pos)
        (digits-step 0 false e (f ∷ []) he ∙ digits-step (0 * 10 + digit e) true f [] hf)

split_at_dash :
    (dash : ℕ) (cs : List ℕ) → (dash == 45) ≡ true → split_dash (dash ∷ cs) ≡ ([], some cs)
unfolding split_dash
split_at_dash dash cs h = rw h

-- The texts around the dash are the numbers of a year and of a month of the calendar.
abbrev IsMonthText : List ℕ → Type 0
IsMonthText cs =
    (before : List ℕ) × (rest : List ℕ) × (year : ℕ) × (month : ℕ) × (split_dash cs
      ≡ (before, some rest))
    × (python_int before ≡ some (pos year))
    × (python_int rest ≡ some (pos month))
    × (1 ≤ year)
    × (1 ≤ month)
    × (month ≤ 12)

month_parts :
    (a b c d s e f : ℕ)
    → matches_month (a ∷ b ∷ c ∷ d ∷ s ∷ e ∷ f ∷ []) ≡ true
    → (is_digit a ≡ true)
      × (is_digit b ≡ true)
      × (is_digit c ≡ true)
      × (is_digit d ≡ true)
      × ((s == 45) ≡ true)
      × (is_month_number e f ≡ true)
month_parts a b c d s e f h =
    let (ha, h1) = and_true (is_digit a) _ h in
    let (hb, h2) = and_true (is_digit b) _ h1 in
    let (hc, h3) = and_true (is_digit c) _ h2 in
    let (hd, h4) = and_true (is_digit d) _ h3 in
    let (hs, hm) = and_true (s == 45) _ h4 in (ha, hb, hc, hd, hs, hm)

month_number :
    (e f : ℕ)
    → is_month_number e f ≡ true
    → (is_digit e ≡ true) × (is_digit f ≡ true) × (1 ≤ month_of e f) × (month_of e f ≤ 12)
month_number e f h = ground arith

year_positive :
    (a b c d : ℕ)
    → is_digit a ≡ true
    → is_digit b ≡ true
    → is_digit c ≡ true
    → is_digit d ≡ true
    → ((a == 48) && ((b == 48) && ((c == 48) && (d == 48)))) ≡ false
    → 1 ≤ year_of a b c d
year_positive a b c d ha hb hc hd z = ground arith

read_month : (cs : List ℕ) → matches_month cs ≡ true → starts_with_zeros cs ≡ false → IsMonthText cs
read_month (a ∷ b ∷ c ∷ d ∷ s ∷ e ∷ f ∷ []) h z =
    let (ha, hb, hc, hd, hs, hm) = month_parts a b c d s e f h in
    let (he, hf, lowest, highest) = month_number e f hm in
    (
      a ∷ b ∷ c ∷ d ∷ [],
      e ∷ f ∷ [],
      year_of a b c d,
      month_of e f,
      split-skip a _ (b ∷ c ∷ d ∷ []) (some (e ∷ f ∷ [])) ha (
          split-skip b _ (c ∷ d ∷ []) (some (e ∷ f ∷ [])) hb (
            split-skip c _ (d ∷ []) (some (e ∷ f ∷ [])) hc
              (split-skip d _ [] (some (e ∷ f ∷ [])) hd (split_at_dash s (e ∷ f ∷ []) hs)))),
      int_of_four a b c d ha hb hc hd,
      int_of_two e f he hf,
      year_positive a b c d ha hb hc hd z,
      lowest,
      highest,
    )
read_month ([]) h z = absurd (ground arith)
read_month (a ∷ []) h z = absurd (ground arith)
read_month (a ∷ b ∷ []) h z = absurd (ground arith)
read_month (a ∷ b ∷ c ∷ []) h z = absurd (ground arith)
read_month (a ∷ b ∷ c ∷ d ∷ []) h z = absurd (ground arith)
read_month (a ∷ b ∷ c ∷ d ∷ e ∷ []) h z = absurd (ground arith)
read_month (a ∷ b ∷ c ∷ d ∷ e ∷ f ∷ []) h z = absurd (ground arith)
read_month (a ∷ b ∷ c ∷ d ∷ s ∷ e ∷ f ∷ g ∷ cs) h z = absurd (ground arith)

-- A test that raises on a missing match or on the other condition.
guarded_month :
    (m z : Bool) (s value : String) {accepted : String}
    → (if not m || z then err s else ok value) ≡ ok accepted
    → (accepted ≡ value) × (m ≡ true) × (z ≡ false)
guarded_month m z s value h = ground arith

validate_month-parts :
    (value : String) {accepted : String}
    → validate_month value ≡ ok accepted
    → (accepted ≡ value)
      × (matches_month (codes value) ≡ true)
      × (starts_with_zeros (codes value) ≡ false)
unfolding validate_month
validate_month-parts value h =
    guarded_month (matches_month (codes value)) (starts_with_zeros (codes value))
      "intake must be a valid calendar month in YYYY-MM" value h

year_and_month-eq :
    (value : String) (before rest : List ℕ) (year month : ℤ)
    → split_dash (codes value) ≡ (before, some rest)
    → python_int before ≡ some year
    → python_int rest ≡ some month
    → year_and_month value ≡ some (year, month)
unfolding year_and_month
year_and_month-eq value before rest year month h k l =
    let before_int : python_int (split_dash (codes value)).0 ≡ some year =
      ap (λ p. python_int p.0) h ∙ k in
    let after_dash : (split_dash (codes value)).1 ≡ some rest = ap (λ p. p.1) h in
    ground (arith, before_int, after_dash, l)

-- An intake that is accepted as a fact is read by the timeline policy as a positive year and a month
-- of the calendar.
pub year_and_month-validate_month :
    (value : String) {accepted : String}
    → validate_month value ≡ ok accepted
    → (year : ℕ) × (month : ℕ) × (year_and_month accepted ≡ some (pos year, pos month))
      × (1 ≤ year)
      × (1 ≤ month)
      × (month ≤ 12)
year_and_month-validate_month value h =
    let (same, matches, fine) = validate_month-parts value h in
    let (before, rest, year, month, split, y, m, positive, lowest, highest) =
      read_month (codes value) matches fine in
    (
      year,
      month,
      ap year_and_month same ∙ year_and_month-eq value before rest (pos year) (pos month) split y m,
      positive,
      lowest,
      highest,
    )
