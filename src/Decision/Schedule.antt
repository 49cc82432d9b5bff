-- ===== src/Decision/Schedule.antt =====
-- What `build_timeline_plan` builds: four dates in order, all after the day of the decision.
use night_voyager.Calendar.Ordinal.{IsDate}
use night_voyager.Decision.Intake.{year_and_month}
use mathlib.Core.Path.{subst}
use night_voyager.Base.Int.{ℤ, pos, negsuc}
use night_voyager.Planning.Enums.{Country}
use night_voyager.Decision.Policy.{milestone, plan_milestones, plan_for_year, build_timeline_plan}
use night_voyager.Base.{
  Option-cases, All, ℕ, zero, suc, ◌≤◌, ◌<◌, String, ◌≡◌, refl, sym, inl, inr, Bool, true, ◌&&◌,
  List, [], ◌∷◌, map, arith,
}
use night_voyager.Base.Results.{ok}
use night_voyager.Calendar.{Date, make_date, date_ltb}
use night_voyager.Decision.Models.{TimelineMilestone, TimelinePlan}

abbrev pub is_ascending : List Date → Bool
is_ascending [] = true
is_ascending (d ∷ []) = true
is_ascending (d ∷ e ∷ ds) = date_ltb d e && is_ascending (e ∷ ds)

-- Four milestones, in order of their dates.
pub record IsSchedule (decided_on : Date) (milestones : List TimelineMilestone) : Type 0 where
  pub keys :
      map TimelineMilestone.key milestones ≡ ("documents" ∷ "application" ∷ "visa" ∷ "arrival" ∷ [])
  pub ahead : All (λ m. date_ltb decided_on m.due_date ≡ true) milestones
  pub valid : All (λ m. IsDate m.due_date) milestones
  pub in_order : is_ascending (map TimelineMilestone.due_date milestones) ≡ true

-- The dates of the plan of year `n + 1`, where the year is in range.
abbrev on : ℕ → ℕ → ℕ → Date
on y m d = record { year = y; month = m; day = d }

abbrev dates : ℕ → List TimelineMilestone
dates n =
    milestone "documents" (on n 9 1)
    ∷ milestone "application" (on n 10 15)
    ∷ milestone "visa" (on n 12 15)
    ∷ milestone "arrival" (on (suc n) 1 20)
    ∷ []

plan_milestones-eq :
    (n : ℕ) {ms : List TimelineMilestone}
    → plan_milestones (pos (suc n)) ≡ ok ms
    → (ms ≡ dates n) × (1 ≤ n) × (n < 9999)
unfolding plan_milestones make_date
plan_milestones-eq n h = ground arith

plan_for_year-parts :
    (c : Country) (s : String) (n : ℕ) (day : Date) {p : TimelinePlan}
    → plan_for_year c s (pos (suc n)) day ≡ ok p
    → (date_ltb day (on n 9 1) ≡ true) × (plan_milestones (pos (suc n)) ≡ ok p.milestones)
unfolding plan_for_year make_date
plan_for_year-parts c s n day h = ground arith

dates-IsSchedule :
    (n : ℕ) (day : Date)
    → 1 ≤ n
    → n < 9999
    → date_ltb day (on n 9 1) ≡ true
    → IsSchedule day (dates n)
unfolding date_ltb make_date
dates-IsSchedule n day lower upper h = record {
  keys = refl;
  ahead = (ground arith, (ground arith, (ground arith, (ground arith, tt))));
  valid = (ground arith, (ground arith, (ground arith, (ground arith, tt))));
  in_order = ground arith;
}

plan_for_year-IsSchedule :
    (c : Country) (s : String) (year : ℤ) (day : Date) {p : TimelinePlan}
    → plan_for_year c s year day ≡ ok p
    → IsSchedule day p.milestones
unfolding plan_for_year
plan_for_year-IsSchedule c s (pos zero) day h = absurd (ground arith)
plan_for_year-IsSchedule c s (negsuc n) day h = absurd (ground arith)
plan_for_year-IsSchedule c s (pos (suc n)) day {p} h =
    let (ahead, built) = plan_for_year-parts c s n day h in
    let (made, lower, upper) = plan_milestones-eq n built in
    subst (IsSchedule day) (sym made) (dates-IsSchedule n day lower upper ahead)

-- A timeline that is built is that of Australia, and its four milestones follow each other in time,
-- the first of them after the day of the decision.
pub build_timeline_plan-IsSchedule :
    (country : Country) (intake_text : String) (decided_on : Date) {p : TimelinePlan}
    → build_timeline_plan country intake_text decided_on ≡ ok p
    → (country ≡ Country.australia) × IsSchedule decided_on p.milestones
unfolding build_timeline_plan
build_timeline_plan-IsSchedule Country.japan s day h = absurd (ground arith)
build_timeline_plan-IsSchedule Country.malaysia s day h = absurd (ground arith)
build_timeline_plan-IsSchedule Country.australia s day {p} h =
    elim (Option-cases (year_and_month s)) [
      | inl absent ↦ absurd (ground arith)
      | inr ((year, month), present) ↦
          (refl, plan_for_year-IsSchedule Country.australia s year day {p = p} (ground arith))
    ]
