-- ===== src/Tasks/Evaluated.antt =====
-- The evaluation of an input that passed the payload check.

use night_voyager.Tasks.Pins.{validate_adapter_payload-IsPinned}
use night_voyager.Base.Results.{ok}
use night_voyager.Planning.Contract.{evidence_contract_error, validate_contract}
use night_voyager.Planning.Policy.{evaluate_planning_run}
use night_voyager.Tasks.Payload.{PayloadReader, validate_adapter_payload}
use mathlib.Core.Path.{subst}
use night_voyager.Base.{
  nat_eq, string_eq, beq_refl, option_eq, length, All, contains, dedup, list_eq, ℕ, ◌≡◌, refl, sym,
  ap, ◌∙◌, ◌≢◌, inl, inr, true, some, List, [], ◌∷◌, ◌++◌, map, arith,
}
use night_voyager.Planning.Enums.{
  evidence_authority_eq, evidence_class_eq, redistribution_class_eq, country_eq, route_outcome_eq,
  RunState, run_state_eq, case_state_eq,
}
use night_voyager.Planning.Models.{
  EvidenceRef, CostEvidence, RankingEvidence, InputKind, synthetic, governed_mixed, PlanningInput,
  PlanningResult,
}
use night_voyager.Planning.Admission.{evaluate-failed, BelongsTo}
use night_voyager.Planning.Provenance.{organization_ids, validate_provenance}
use night_voyager.Tasks.Models.{
  agent_task_state_eq, adapter_failure_code_eq, planning_operation_eq, adapter_id_eq,
  adapter_version_eq,
}
use night_voyager.Tasks.Adapter.{PlanningAdapterRequest, AdapterPayload, SkillLeafBinding, leaf_eq}

length-dedup_same : (x : ℕ) (xs : List ℕ) → All (λ y. y ≡ x) xs → length (dedup (x ∷ xs)) ≡ 1
length-dedup_same x [] h = refl
length-dedup_same x (y ∷ ys) h =
    let found : contains x (y ∷ ys) ≡ true = ground (arith, h.0, beq_refl x) in
    let rest : length (dedup (y ∷ ys)) ≡ 1 =
      subst (λ z. length (dedup (z ∷ ys)) ≡ 1) (sym h.0) (length-dedup_same x ys h.1) in
    ground (arith, found, rest)

All-concat :
    (k : ℕ) (xs ys : List ℕ)
    → All (λ y. y ≡ k) xs
    → All (λ y. y ≡ k) ys
    → All (λ y. y ≡ k) (xs ++ ys)
All-concat k [] ys h g = g
All-concat k (x ∷ xs) ys h g = (h.0, All-concat k xs ys h.1 g)

All-mapped :
    {A : Type 0} (k : ℕ) (f : A → ℕ) (xs : List A)
    → All (λ x. f x ≡ k) xs
    → All (λ y. y ≡ k) (map f xs)
All-mapped k f [] h = tt
All-mapped k f (x ∷ xs) h = (h.0, All-mapped k f xs h.1)

one_organization :
    (i : PlanningInput) → BelongsTo i.organization_id i → length (dedup (organization_ids i)) ≡ 1
unfolding organization_ids
one_organization i h =
    let org = i.organization_id in
    length-dedup_same org
      (i.case.organization_id
        ∷ i.source_pack.organization_id
        ∷ (map EvidenceRef.organization_id i.evidence
            ++ (map CostEvidence.organization_id i.costs
                ++ map RankingEvidence.organization_id i.rankings)))
      (
        h.0,
        (
          h.1,
          All-concat org _ _ (All-mapped org EvidenceRef.organization_id i.evidence h.2) (
              All-concat org _ _ (All-mapped org CostEvidence.organization_id i.costs h.3)
                (All-mapped org RankingEvidence.organization_id i.rankings h.4)),
        ),
      )

provenance-no_mismatch :
    (i : PlanningInput)
    → length (dedup (organization_ids i)) ≡ 1
    → validate_provenance i ≢ some "tenant_mismatch"
unfolding validate_provenance
provenance-no_mismatch i one =
    ground (arith, one, string_eq.eqb_iff "evidence_provenance_invalid" "tenant_mismatch")

evidence_error-no_mismatch :
    (k : InputKind) (es : List EvidenceRef) → evidence_contract_error k es ≢ some "tenant_mismatch"
unfolding evidence_contract_error
evidence_error-no_mismatch synthetic es =
    ground (arith, string_eq.eqb_iff "evidence_authority_invalid" "tenant_mismatch")
evidence_error-no_mismatch governed_mixed es = ground (
  arith,
  string_eq.eqb_iff "mixed_evidence_baseline_invalid" "tenant_mismatch",
  string_eq.eqb_iff "mixed_evidence_authority_invalid" "tenant_mismatch",
)

contract-no_mismatch : (i : PlanningInput) → validate_contract i ≢ some "tenant_mismatch"
unfolding validate_contract
contract-no_mismatch i = ground (
  arith,
  string_eq.eqb_iff "schema_or_version_invalid" "tenant_mismatch",
  string_eq.eqb_iff "country_scope_invalid" "tenant_mismatch",
  string_eq.eqb_iff "cost_currency_invalid" "tenant_mismatch",
  evidence_error-no_mismatch i.kind i.evidence,
)

-- The evaluation of an input that passed the payload check never fails by a mismatch of tenants.
pub evaluate-payload :
    {Bytes : Type 0} (reader : PayloadReader Bytes) (o : AdapterPayload Bytes)
    (r : PlanningAdapterRequest) (b : SkillLeafBinding) {i : PlanningInput} {out : PlanningResult}
    → validate_adapter_payload reader o r (some b) ≡ ok i
    → evaluate_planning_run i ≡ some out
    → out.state ≡ RunState.failed
    → out.reason_code ≢ "tenant_mismatch"
evaluate-payload reader o r b {i} {out} h run stopped same =
    let (pinned, _, _, _, _) = validate_adapter_payload-IsPinned reader o r b h in
    let belongs : BelongsTo i.organization_id i =
      subst (λ k. BelongsTo k i) (sym pinned.organization) pinned.belongs in
    elim (evaluate-failed i run stopped).1 [
      | inl contract ↦ contract-no_mismatch i (contract ∙ ap some same)
      | inr (_, provenance) ↦
          provenance-no_mismatch i (one_organization i belongs) (provenance ∙ ap some same)
    ]
