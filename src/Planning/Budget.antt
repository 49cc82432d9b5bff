-- ===== src/Planning/Budget.antt =====
-- `BudgetEnvelope` as it is built from unchecked values: the `PositiveInt` and `Literal` fields,
-- then `validate_envelope`.
use night_voyager.Base.{
  ltb, leb, if◌then◌else◌, is_none, ◌==◌, ◌!=◌, nat_eq, string_eq, option_eq, list_eq, ℕ, ◌≤◌, ◌<◌,
  String, ◌≡◌, Bool, true, false, not, ◌||◌, Option, none, some,
}
use night_voyager.Base.Int.{ℤ, pos, negsuc}
use night_voyager.Base.Results.{Result, ok, err, ◌>>=◌, ◌>>◌, raise_if}
use night_voyager.Planning.Models.{BudgetEnvelope}

pub record RawBudget : Type 0 where
  pub schema_version : ℤ
  pub currency : String
  pub period : String
  pub preferred_minor : Option ℤ
  pub hard_ceiling_minor : Option ℤ
  pub elasticity_bps : ℤ
  pub refused : Bool

-- `PositiveInt`
unfoldable pub positive_int : ℤ → Result ℕ
positive_int (pos n) = if ltb 0 n then ok n else err "greater_than"
positive_int (negsuc n) = err "greater_than"

-- `PositiveInt | None`
unfoldable pub optional_positive_int : Option ℤ → Result (Option ℕ)
optional_positive_int none = ok none
optional_positive_int (some z) = do n ← positive_int z; ok (some n)

-- `0 <= value <= 2500`
unfoldable pub bounded_bps : ℤ → Result ℕ
bounded_bps (pos n) =
    if leb n 2500 then ok n else err "elasticity_bps must be inside the approved 0..2500 boundary"
bounded_bps (negsuc n) = err "elasticity_bps must be inside the approved 0..2500 boundary"

abbrev pub literal_one : ℤ → Bool
literal_one (pos n) = n == 1
literal_one (negsuc n) = false

-- The checks on the two amounts, by whether the budget is refused.
unfoldable pub check_amounts : Bool → Option ℕ → Option ℕ → Result (Unit {0})
check_amounts true preferred hard =
    raise_if (not (is_none preferred) || not (is_none hard))
      "refused budget cannot carry monetary ceilings"
check_amounts false none hard = err "non-refused budget requires preferred and hard ceilings"
check_amounts false (some p) none = err "non-refused budget requires preferred and hard ceilings"
check_amounts false (some p) (some h) =
    raise_if (ltb h p) "preferred budget cannot exceed hard ceiling"

unfoldable pub validate_budget : RawBudget → Result BudgetEnvelope
validate_budget b = do
  raise_if (not (literal_one b.schema_version)) "literal_error"
  raise_if (b.currency != "CNY") "literal_error"
  raise_if (b.period != "program_total") "literal_error"
  preferred ← optional_positive_int b.preferred_minor
  hard ← optional_positive_int b.hard_ceiling_minor
  bps ← bounded_bps b.elasticity_bps
  check_amounts b.refused preferred hard
  ok (record {
    schema_version = 1;
    currency = b.currency;
    period = b.period;
    preferred_minor = preferred;
    hard_ceiling_minor = hard;
    elasticity_bps = bps;
    refused = b.refused;
  })

-- The amounts of a checked budget.
abbrev pub HasAmounts : Bool → Option ℕ → Option ℕ → Type 0
HasAmounts true preferred hard = (preferred ≡ none) × (hard ≡ none)
HasAmounts false preferred hard =
    (p : ℕ) × (h : ℕ) × (preferred ≡ some p) × (hard ≡ some h) × (0 < p) × (p ≤ h)

pub record IsEnvelope (b : BudgetEnvelope) : Type 0 where
  pub elasticity : b.elasticity_bps ≤ 2500
  pub currency : b.currency ≡ "CNY"
  pub period : b.period ≡ "program_total"
  pub amounts : HasAmounts b.refused b.preferred_minor b.hard_ceiling_minor
