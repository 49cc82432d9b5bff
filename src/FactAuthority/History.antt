-- ===== src/FactAuthority/History.antt =====
-- The revisions of a case as the history of its facts.
use night_voyager.Base.Equality.{◌==◌, nat_eq, string_eq, beq_refl, option_eq}
use night_voyager.Base.{
  eq_of_some, length, find_first, list_eq, ℕ, ◌+◌, ◌≡◌, refl, sym, ap, ◌∙◌, true, some, List, [],
  ◌∷◌, map, arith,
}
use night_voyager.Planning.Models.{StudentPreferences, FamilyPreferences, StudentCaseRevision}
use night_voyager.Collaboration.Models.{
  fact_key_eq, memory_candidate_state_eq, verification_decision_eq, FactProposal,
  intended_field_proposal, preferred_countries_proposal, intake_proposal, risk_tolerance_proposal,
  japan_risk_accepted_proposal, budget_proposal,
}
use night_voyager.Collaboration.Policy.{applied_student, applied_family, apply_confirmed_fact}
use night_voyager.FactAuthority.Rows.{CandidateRow, FactRow, CaseRevisionRow}
use night_voyager.FactAuthority.Verify.{Verifying, next_student, next_family, next_revision}
use night_voyager.FactAuthority.Confirm.{is_revision}

-- The facts, from the oldest to the latest, applied to a revision by `apply_confirmed_fact`.
unfoldable pub replay : StudentCaseRevision → List FactRow → StudentCaseRevision
replay base [] = base
replay base (f ∷ fs) = apply_confirmed_fact (replay base fs) f.value

-- The revisions that the facts went through, the latest first.
unfoldable pub history : StudentCaseRevision → List FactRow → List StudentCaseRevision
history base [] = base ∷ []
history base (f ∷ fs) = replay base (f ∷ fs) ∷ history base fs

pub replay-version :
    (base : StudentCaseRevision) (fs : List FactRow)
    → (replay base fs).schema_version ≡ base.schema_version
unfolding replay apply_confirmed_fact
replay-version base [] = refl
replay-version base (f ∷ fs) = replay-version base fs

pub replay-revision :
    (base : StudentCaseRevision) (fs : List FactRow)
    → (replay base fs).revision ≡ base.revision + length fs
unfolding replay apply_confirmed_fact
replay-revision base [] = omega arith
replay-revision base (f ∷ fs) = ap (λ n. n + 1) (replay-revision base fs) ∙ omega arith

next_student-applied :
    (value : FactProposal) (s : StudentPreferences) → next_student value s ≡ applied_student s value
unfolding next_student
next_student-applied (intended_field_proposal value) s = refl
next_student-applied (preferred_countries_proposal value) s = refl
next_student-applied (intake_proposal value) s = refl
next_student-applied (risk_tolerance_proposal value) s = refl
next_student-applied (japan_risk_accepted_proposal value) s = refl
next_student-applied (budget_proposal value) s = refl

next_family-applied :
    (value : FactProposal) (f : FamilyPreferences) → next_family value f ≡ applied_family f value
unfolding next_family
next_family-applied (intended_field_proposal value) f = refl
next_family-applied (preferred_countries_proposal value) f = refl
next_family-applied (intake_proposal value) f = refl
next_family-applied (risk_tolerance_proposal value) f = refl
next_family-applied (japan_risk_accepted_proposal value) f = refl
next_family-applied (budget_proposal value) f = refl

-- The row that a confirmation inserts is that of the policy.
pub next_revision-apply :
    (v : Verifying) (c : CandidateRow) (r : StudentCaseRevision)
    → r.schema_version ≡ 1
    → r.revision ≡ v.expected_revision
    → next_revision v c r ≡ apply_confirmed_fact r c.proposed_value
unfolding apply_confirmed_fact
next_revision-apply v c r version same = ground (
  arith,
  next_student-applied c.proposed_value r.student,
  next_family-applied c.proposed_value r.family,
)

first_content :
    (base : StudentCaseRevision) (fs : List FactRow) (r : CaseRevisionRow)
    (rs : List CaseRevisionRow)
    → map CaseRevisionRow.content (r ∷ rs) ≡ history base fs
    → r.content ≡ replay base fs
unfolding replay history
first_content base [] r rs same = cc
first_content base (f ∷ fs) r rs same = cc

found_first :
    (r : CaseRevisionRow) (rs : List CaseRevisionRow) (n : ℕ) {row : CaseRevisionRow}
    → is_revision n r ≡ true
    → find_first (is_revision n) (r ∷ rs) ≡ some row
    → r ≡ row
found_first r rs n here found = eq_of_some (sym (rw here refl) ∙ found)

-- The row of the current revision is the latest one.
pub current-replay :
    (base : StudentCaseRevision) (fs : List FactRow) (rows : List CaseRevisionRow) (n : ℕ)
    {row : CaseRevisionRow}
    → map CaseRevisionRow.content rows ≡ history base fs
    → (replay base fs).revision ≡ n
    → find_first (is_revision n) rows ≡ some row
    → row.content ≡ replay base fs
current-replay base fs [] n same at found = cc
current-replay base fs (r ∷ rs) n same at found =
    let content : r.content ≡ replay base fs = first_content base fs r rs same in
    let here : is_revision n r ≡ true =
      ap (λ x. x.revision == n) content ∙ ap (λ x. x == n) at ∙ beq_refl n in
    sym (ap (λ x. x.content) (found_first r rs n here found)) ∙ content
