-- ===== src/Planning/Authority.antt =====
-- The evidence authorities that a run admits.
use night_voyager.Base.{
  if◌then◌else◌, Bool-cases, and_true, ◌==◌, ◌!=◌, nat_eq, string_eq, eq_of_beq, eq_of_bne,
  ne_of_beq, option_eq, count_if, All, contains, list_eq, is_unique, String, ◌≡◌, ap, ◌∙◌, ◌≢◌, ◌⊎◌,
  inl, inr, Bool, true, false, not, ◌||◌, none, some, List, arith,
}
use night_voyager.Base.ListLaws.{
  any-false, all-true, All-imp, is_unique-Unique, count_key, count_if-congr,
}
use night_voyager.Planning.Enums.{
  accepted_synthetic_demo, externally_verified, evidence_authority_eq, redistribution_class_eq,
  country_eq, route_outcome_eq, RunState, run_state_eq, case_state_eq,
}
use night_voyager.Planning.Models.{
  EvidenceRef, InputKind, synthetic, governed_mixed, PlanningInput, PlanningResult,
}
use night_voyager.Planning.Contract.{
  mixed_baseline_claims, claims_of, mixed_authority, evidence_contract_error, validate_contract,
}
use night_voyager.Planning.Policy.{evaluate_planning_run}
use night_voyager.Planning.Admission.{evaluate-IsAdmitted}

contract-evidence :
    (i : PlanningInput)
    → validate_contract i ≡ none
    → evidence_contract_error i.kind i.evidence ≡ none
unfolding validate_contract
contract-evidence i h = ground arith

abbrev is_external : EvidenceRef → Bool
is_external e = e.authority == externally_verified

-- By the class of the input: all items are of the synthetic demo, or exactly one is externally
-- verified, that of Australia's program fit, and the others are of the synthetic demo.
abbrev pub AuthorityRule : InputKind → List EvidenceRef → Type 0
AuthorityRule synthetic evidence = All (λ e. e.authority ≡ accepted_synthetic_demo) evidence
AuthorityRule governed_mixed evidence =
    All
      (λ e.
        ((e.claim ≡ "australia_program_fit") × (e.authority ≡ externally_verified))
        ⊎ ((e.claim ≢ "australia_program_fit") × (e.authority ≡ accepted_synthetic_demo)))
      evidence
    × (count_if is_external evidence ≡ 1)

claim_authority :
    (e : EvidenceRef)
    → (e.authority != mixed_authority e.claim) ≡ false
    → ((e.claim ≡ "australia_program_fit") × (e.authority ≡ externally_verified))
      ⊎ ((e.claim ≢ "australia_program_fit") × (e.authority ≡ accepted_synthetic_demo))
claim_authority e h = elim (Bool-cases (e.claim == "australia_program_fit")) [
  | inl external ↦ inl (eq_of_beq external, ground arith)
  | inr other ↦ inr (ne_of_beq other, ground arith)
]

external-claim :
    (e : EvidenceRef)
    → (e.authority != mixed_authority e.claim) ≡ false
    → is_external e ≡ (e.claim == "australia_program_fit")
external-claim e h = ground arith

-- The two tests of a governed mixed input, read apart.
guarded :
    (a b c : Bool) (s s' : String)
    → (if not a || not b then some s else if c then some s' else none) ≡ none
    → (a ≡ true) × (b ≡ true) × (c ≡ false)
guarded a b c s s' h = ground arith

mixed_rule :
    (evidence : List EvidenceRef)
    → evidence_contract_error governed_mixed evidence ≡ none
    → AuthorityRule governed_mixed evidence
unfolding evidence_contract_error
mixed_rule evidence h =
    let (unique, exact, authority) = guarded (is_unique (claims_of evidence)) _ _ _ _ h in
    let checked = any-false (λ e. e.authority != mixed_authority e.claim) evidence authority in
    let covered =
      all-true (λ x. contains x (claims_of evidence)) mixed_baseline_claims
        (and_true _ _ exact).1 in
    (
      All-imp claim_authority evidence checked,
      count_if-congr is_external (λ e. e.claim == "australia_program_fit") evidence
            (All-imp external-claim evidence checked)
          ∙ count_key (λ e. e.claim) "australia_program_fit" evidence
              (is_unique-Unique (claims_of evidence) unique)
          ∙ ap (λ (b : Bool). if b then 1 else 0) covered.0,
    )

rule :
    (kind : InputKind) (evidence : List EvidenceRef)
    → evidence_contract_error kind evidence ≡ none
    → AuthorityRule kind evidence
unfolding evidence_contract_error
rule synthetic evidence h =
    All-imp (λ e k. eq_of_bne k) evidence
      (any-false (λ e. e.authority != accepted_synthetic_demo) evidence (ground arith))
rule governed_mixed evidence h = mixed_rule evidence h

-- A run that does not fail keeps the authority rule of its class of input.
pub evaluate-authority :
    (i : PlanningInput) {r : PlanningResult}
    → evaluate_planning_run i ≡ some r
    → r.state ≢ RunState.failed
    → AuthorityRule i.kind i.evidence
evaluate-authority i h live =
    rule i.kind i.evidence (contract-evidence i (evaluate-IsAdmitted i h live).0)
