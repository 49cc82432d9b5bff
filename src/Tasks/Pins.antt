-- ===== src/Tasks/Pins.antt =====
-- What a payload that passes the check satisfies, and how its evaluation can end.
use night_voyager.Planning.Frozen.{IsFrozen, validate_governed_mixed_payload_baseline-IsFrozen}
use night_voyager.Planning.MixedBaseline.{validate_governed_mixed_payload_baseline}
use mathlib.Core.Path.{subst}
use night_voyager.Base.Results.{ok, ◌>>=◌, bind-eq-ok, Result-cases}
use night_voyager.Base.ListLaws.{any-false, All-imp}
use night_voyager.Planning.Enums.{
  accepted_synthetic_demo, externally_verified, evidence_authority_eq, evidence_class_eq,
  redistribution_class_eq, country_eq, route_outcome_eq, run_state_eq, case_state_eq,
}
use night_voyager.Tasks.Models.{
  agent_task_state_eq, adapter_failure_code_eq, planning_operation_beq_iff, planning_operation_eq,
  adapter_id_beq_iff, adapter_id_eq, adapter_version_beq_iff, adapter_version_eq,
}
use night_voyager.Tasks.Payload.{
  PayloadReader, read_object, check_raw, check_leaf, read_input, pins_differ, scope_differs,
  one_external, check_authority, check_input, validate_adapter_payload,
}
use night_voyager.Base.{
  or_false, ◌==◌, ◌!=◌, nat_eq, string_eq, eq_of_beq, eq_of_bne, option_eq, any, select, All,
  list_eq, ℕ, ◌≡◌, refl, sym, ◌⊎◌, inl, inr, true, false, Option, some, List, [], ◌∷◌, arith,
}
use night_voyager.Planning.Models.{
  EvidenceRef, CostEvidence, RankingEvidence, InputKind, synthetic, governed_mixed, PlanningInput,
}
use night_voyager.Planning.Admission.{BelongsTo}
use night_voyager.Tasks.Adapter.{PlanningAdapterRequest, AdapterPayload, SkillLeafBinding, leaf_eq}

-- An input has the pins of the request, and every row is of the request's organization.
pub record IsPinned (r : PlanningAdapterRequest) (i : PlanningInput) : Type 0 where
  pub organization : i.organization_id ≡ r.organization_id
  pub belongs : BelongsTo r.organization_id i
  pub case_id : i.case.case_id ≡ r.case_id
  pub revision : i.case.revision ≡ r.case_revision
  pub pack : i.source_pack.pack_id ≡ r.source_pack_id
  pub version : i.source_pack.version ≡ r.source_pack_version

any_ne :
    {A : Type 0} (f : A → ℕ) (k : ℕ) (xs : List A)
    → any (λ x. f x != k) xs ≡ false
    → All (λ x. f x ≡ k) xs
any_ne f k xs h = All-imp (λ x e. eq_of_bne e) xs (any-false (λ x. f x != k) xs h)

pins_differ-IsPinned :
    (r : PlanningAdapterRequest) (i : PlanningInput) → pins_differ r i ≡ false → IsPinned r i
unfolding pins_differ
pins_differ-IsPinned r i h =
    let (organization, h1) = or_false (i.organization_id != r.organization_id) _ h in
    let (case_organization, h2) = or_false (i.case.organization_id != r.organization_id) _ h1 in
    let (case_id, h3) = or_false (i.case.case_id != r.case_id) _ h2 in
    let (revision, h4) = or_false (i.case.revision != r.case_revision) _ h3 in
    let (pack_organization, h5) =
      or_false (i.source_pack.organization_id != r.organization_id) _ h4 in
    let (pack, h6) = or_false (i.source_pack.pack_id != r.source_pack_id) _ h5 in
    let (version, h7) = or_false (i.source_pack.version != r.source_pack_version) _ h6 in
    let (evidence, h8) =
      or_false (any (λ e. e.organization_id != r.organization_id) i.evidence) _ h7 in
    let (costs, rankings) =
      or_false (any (λ c. c.organization_id != r.organization_id) i.costs) _ h8 in
    record {
      organization = eq_of_bne organization;
      belongs = (
        eq_of_bne case_organization,
        eq_of_bne pack_organization,
        any_ne EvidenceRef.organization_id r.organization_id i.evidence evidence,
        any_ne CostEvidence.organization_id r.organization_id i.costs costs,
        any_ne RankingEvidence.organization_id r.organization_id i.rankings rankings,
      );
      case_id = eq_of_bne case_id;
      revision = eq_of_bne revision;
      pack = eq_of_bne pack;
      version = eq_of_bne version;
    }

-- The authorities that the check admits, by the class of the input, given the frozen baseline.
abbrev pub AdmittedAuthorities : List EvidenceRef → InputKind → List EvidenceRef → Type 0
AdmittedAuthorities baseline synthetic evidence =
    All (λ e. e.authority ≡ accepted_synthetic_demo) evidence
AdmittedAuthorities baseline governed_mixed evidence =
    ((e : EvidenceRef) × (select (λ e. e.authority == externally_verified) evidence ≡ (e ∷ []))
      × (e.claim ≡ "australia_program_fit"))
    × All (λ e. (e.claim ≡ "australia_program_fit") ⊎ IsFrozen baseline e) evidence

check_input-parts :
    (b : PlanningInput) (r : PlanningAdapterRequest) (i : PlanningInput) {out : PlanningInput}
    → check_input b r i ≡ ok out
    → (out ≡ i)
      × (pins_differ r i ≡ false)
      × (scope_differs i ≡ false)
      × (check_authority b i ≡ ok tt)
unfolding check_input
check_input-parts b r i h = ground arith

one_external-some :
    (es : List EvidenceRef)
    → one_external es ≡ true
    → (e : EvidenceRef) × (es ≡ (e ∷ [])) × (e.claim ≡ "australia_program_fit")
one_external-some [] h = absurd (ground arith)
one_external-some (e ∷ []) h = (e, refl, eq_of_beq h)
one_external-some (e ∷ f ∷ es) h = absurd (ground arith)

check_authority-baseline :
    (b i : PlanningInput)
    → i.kind ≡ governed_mixed
    → check_authority b i ≡ ok tt
    → validate_governed_mixed_payload_baseline b i ≡ ok tt
unfolding check_authority
check_authority-baseline b i e h =
    elim (Result-cases (validate_governed_mixed_payload_baseline b i)) [
      | inl (done, passed) ↦ passed
      | inr (message, wrong) ↦ absurd (ground (arith, e, wrong, h))
    ]

AdmittedAuthorities-of_check :
    (b i : PlanningInput) (k : InputKind)
    → i.kind ≡ k
    → check_authority b i ≡ ok tt
    → AdmittedAuthorities b.evidence k i.evidence
unfolding check_authority
AdmittedAuthorities-of_check b i synthetic e h =
    All-imp (λ x d. eq_of_bne d) i.evidence
      (any-false (λ x. x.authority != accepted_synthetic_demo) i.evidence (ground arith))
AdmittedAuthorities-of_check b i governed_mixed e h = (
  one_external-some (select (λ x. x.authority == externally_verified) i.evidence) (ground arith),
  validate_governed_mixed_payload_baseline-IsFrozen b i (check_authority-baseline b i e h),
)

check_input-again :
    (b : PlanningInput) (r : PlanningAdapterRequest) (i : PlanningInput) {out : PlanningInput}
    → check_input b r i ≡ ok out
    → check_input b r out ≡ ok out
check_input-again b r i {out} h =
    let same : out ≡ i = (check_input-parts b r i h).0 in
    subst (λ x. check_input b r x ≡ ok out) (sym same) h

payload-parts :
    {Bytes : Type 0} (reader : PayloadReader Bytes) (o : AdapterPayload Bytes)
    (r : PlanningAdapterRequest) (given : Option SkillLeafBinding) {out : PlanningInput}
    → validate_adapter_payload reader o r given ≡ ok out
    → (check_leaf o r given ≡ ok tt) × (check_input reader.baseline r out ≡ ok out)
unfolding validate_adapter_payload
payload-parts reader o r given h =
    let (raw, read, h1) =
      bind-eq-ok (read_object reader o.payload)
        (λ raw. check_raw raw >>= λ _. check_leaf o r given >>= λ _.
          read_input reader r raw o.payload >>= λ i. check_input reader.baseline r i)
        h in
    let (done, raw_fine, h2) =
      bind-eq-ok (check_raw raw)
        (λ _. check_leaf o r given >>= λ _.
          read_input reader r raw o.payload >>= λ i. check_input reader.baseline r i)
        h1 in
    let (again, leaf_fine, h3) =
      bind-eq-ok (check_leaf o r given)
        (λ _. read_input reader r raw o.payload >>= λ i. check_input reader.baseline r i) h2 in
    let (i, validated, h4) =
      bind-eq-ok (read_input reader r raw o.payload) (λ i. check_input reader.baseline r i) h3 in
    (leaf_fine, check_input-again reader.baseline r i h4)

leaf-given :
    {Bytes : Type 0} (o : AdapterPayload Bytes) (r : PlanningAdapterRequest) (b : SkillLeafBinding)
    → check_leaf o r (some b) ≡ ok tt
    → (b.operation ≡ r.operation)
      × (o.adapter_id ≡ b.adapter_id)
      × (o.adapter_version ≡ b.adapter_version)
unfolding check_leaf
leaf-given o r b h = ground (
  arith,
  planning_operation_beq_iff b.operation r.operation,
  adapter_id_beq_iff o.adapter_id b.adapter_id,
  adapter_version_beq_iff o.adapter_version b.adapter_version,
)

-- A payload that passes the check has the pins of its request in the case and the source pack, its
-- organization in every row, and the adapter of the given leaf binding. Its evidence has admitted
-- authorities only: a synthetic input's items are all accepted synthetic demo material; a governed
-- mixed one has exactly one externally verified item, of the program fit in Australia, and every
-- item of another claim has the authority and the source that the frozen baseline gives the claim.
pub validate_adapter_payload-IsPinned :
    {Bytes : Type 0} (reader : PayloadReader Bytes) (o : AdapterPayload Bytes)
    (r : PlanningAdapterRequest) (b : SkillLeafBinding) {out : PlanningInput}
    → validate_adapter_payload reader o r (some b) ≡ ok out
    → IsPinned r out
      × AdmittedAuthorities reader.baseline.evidence out.kind out.evidence
      × (b.operation ≡ r.operation)
      × (o.adapter_id ≡ b.adapter_id)
      × (o.adapter_version ≡ b.adapter_version)
validate_adapter_payload-IsPinned reader o r b {out} h =
    let (leaf, input) = payload-parts reader o r (some b) h in
    let (_, pins, scope, authority) = check_input-parts reader.baseline r out input in
    let (operation, adapter, version) = leaf-given o r b leaf in
    (
      pins_differ-IsPinned r out pins,
      AdmittedAuthorities-of_check reader.baseline out out.kind refl authority,
      operation,
      adapter,
      version,
    )
