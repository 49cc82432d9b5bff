-- ===== src/Tasks/Materialized.antt =====
-- The input that the deterministic adapter serialises passes the worker's pin check.

use night_voyager.Tasks.Pins.{IsPinned}
use night_voyager.Tasks.Deterministic.{
  Loaded, snapshot_of, load_error, DeterministicPlanningAdapter, snapshot_differs, input_of,
  answer_load, generate,
}
use night_voyager.Planning.Enums.{
  evidence_authority_eq, evidence_class_eq, redistribution_class_eq, country_eq, route_outcome_eq,
  run_state_eq, case_state_eq,
}
use night_voyager.Planning.MixedBaseline.{baseline_source_pack_id, baseline_source_pack_version}
use night_voyager.Planning.Admission.{BelongsTo}
use night_voyager.Tasks.Models.{
  agent_task_state_eq, adapter_failure_code_eq, planning_operation_eq, adapter_id_eq,
  adapter_version_eq,
}
use night_voyager.Tasks.Adapter.{PlanningAdapterRequest, AdapterPayload, delivered, leaf_eq}
use mathlib.Core.Path.{subst}
use night_voyager.Base.{
  Bool-cases, Option-cases, nat_eq, string_eq, option_eq, select, All, contains, list_eq, ℕ, ◌≡◌,
  refl, sym, ◌∙◌, inl, inr, Bool, true, false, some, List, [], ◌∷◌, map, arith,
}
use night_voyager.Base.Results.{ok, bind-eq-ok}
use night_voyager.Planning.Models.{EvidenceRef, CostEvidence, RankingEvidence, PlanningInput}
use night_voyager.Planning.Materialize.{
  PersistedSyntheticSnapshot, exact_case_organization, Fixture, intake_delay_source_pack_id,
  load_exact_synthetic_baseline, load_exact_intake_delay_fixture, choose_baseline, evidence_for,
  cost_for, ranking_for, materialized, materialize_on, materialize_persisted_synthetic_input,
}

demo-pack :
    (f : Fixture) {i : PlanningInput}
    → load_exact_synthetic_baseline f ≡ ok i
    → (i.source_pack.pack_id ≡ baseline_source_pack_id)
      × (i.source_pack.version ≡ baseline_source_pack_version)
unfolding load_exact_synthetic_baseline
demo-pack f h = ground arith

delay-pack :
    (f : Fixture) {i : PlanningInput}
    → load_exact_intake_delay_fixture f ≡ ok i
    → (i.source_pack.pack_id ≡ intake_delay_source_pack_id) × (i.source_pack.version ≡ 1)
unfolding load_exact_intake_delay_fixture
delay-pack f h = ground arith

choose_baseline-pack :
    (demo delay : Fixture) (s : PersistedSyntheticSnapshot) {i : PlanningInput}
    → choose_baseline demo delay s ≡ ok i
    → (i.source_pack.pack_id ≡ s.source_pack_id) × (i.source_pack.version ≡ s.source_pack_version)
unfolding choose_baseline
choose_baseline-pack demo delay s {i} h =
    grind (arith, demo-pack demo {i = i}, delay-pack delay {i = i})

select-kept :
    {A : Type 0} (q : A → Bool) (x : A) (xs : List A)
    → q x ≡ true
    → select q (x ∷ xs) ≡ (x ∷ select q xs)
select-kept q x xs h = rw h

select-dropped :
    {A : Type 0} (q : A → Bool) (x : A) (xs : List A)
    → q x ≡ false
    → select q (x ∷ xs) ≡ select q xs
select-dropped q x xs h = rw h

-- Rows that are put under one organization are of it, also after a selection.
All-select :
    {A : Type 0} (P : A → Type 0) (q : A → Bool) (xs : List A) → All P xs → All P (select q xs)
All-select P q [] h = tt
All-select P q (x ∷ xs) h = elim (Bool-cases (q x)) [
  | inl kept ↦ subst (All P) (sym (select-kept q x xs kept)) (h.0, All-select P q xs h.1)
  | inr dropped ↦ subst (All P) (sym (select-dropped q x xs dropped)) (All-select P q xs h.1)
]

All-stamped :
    {A : Type 0} (f : A → ℕ) (g : A → A) (k : ℕ) (xs : List A)
    → ((x : A) → f (g x) ≡ k)
    → All (λ x. f x ≡ k) (map g xs)
All-stamped f g k [] h = tt
All-stamped f g k (x ∷ xs) h = (h x, All-stamped f g k xs h)

materialize_on-eq :
    (s : PersistedSyntheticSnapshot) (b : PlanningInput) {i : PlanningInput}
    → materialize_on s b ≡ ok i
    → i ≡ materialized s b
unfolding materialize_on
materialize_on-eq s b h = ground arith

materialized-BelongsTo :
    (s : PersistedSyntheticSnapshot) (b : PlanningInput)
    → s.case.organization_id ≡ s.organization_id
    → BelongsTo s.organization_id (materialized s b)
materialized-BelongsTo s b h =
    let org = s.organization_id in
    (
      h,
      refl,
      All-stamped EvidenceRef.organization_id (evidence_for org) org b.evidence (λ e. refl),
      All-select (λ c. c.organization_id ≡ org)
          (λ c. contains c.country s.case.student.preferred_countries) (map (cost_for org) b.costs)
          (All-stamped CostEvidence.organization_id (cost_for org) org b.costs (λ c. refl)),
      All-select (λ k. k.organization_id ≡ org)
          (λ k. contains k.country s.case.student.preferred_countries)
          (map (ranking_for org) b.rankings)
          (All-stamped RankingEvidence.organization_id (ranking_for org) org b.rankings
            (λ k. refl)),
    )

exact_case-eq :
    (s : PersistedSyntheticSnapshot)
    → exact_case_organization s ≡ ok s
    → s.case.organization_id ≡ s.organization_id
unfolding exact_case_organization
exact_case-eq s h = ground arith

snapshot_differs-parts :
    (s : PersistedSyntheticSnapshot) (r : PlanningAdapterRequest)
    → snapshot_differs s r ≡ false
    → (s.organization_id ≡ r.organization_id)
      × (s.case.case_id ≡ r.case_id)
      × (s.case.revision ≡ r.case_revision)
      × (s.source_pack_id ≡ r.source_pack_id)
      × (s.source_pack_version ≡ r.source_pack_version)
unfolding snapshot_differs
snapshot_differs-parts s r h = ground arith

input_of-parts :
    (demo delay : Fixture) (r : PlanningAdapterRequest) (s : PersistedSyntheticSnapshot)
    {i : PlanningInput}
    → input_of demo delay r s ≡ some i
    → (snapshot_differs s r ≡ false) × (materialize_persisted_synthetic_input demo delay s ≡ ok i)
unfolding input_of
input_of-parts demo delay r s h = ground arith

-- Of a valid snapshot, the input has the request's pins.
input_of-IsPinned :
    (demo delay : Fixture) (r : PlanningAdapterRequest) (s : PersistedSyntheticSnapshot)
    {i : PlanningInput}
    → exact_case_organization s ≡ ok s
    → input_of demo delay r s ≡ some i
    → IsPinned r i
unfolding materialize_persisted_synthetic_input
input_of-IsPinned demo delay r s {i} exact h =
    let (alike, made) = input_of-parts demo delay r s h in
    let (organization, case_id, revision, pack, version) = snapshot_differs-parts s r alike in
    let (b, chosen, built) = bind-eq-ok (choose_baseline demo delay s) (materialize_on s) made in
    let (pack_same, version_same) = choose_baseline-pack demo delay s chosen in
    let belongs : BelongsTo r.organization_id (materialized s b) =
      subst (λ org. BelongsTo org (materialized s b)) organization
        (materialized-BelongsTo s b (exact_case-eq s exact)) in
    subst (IsPinned r) (sym (materialize_on-eq s b built)) (record {
      organization = organization;
      belongs = belongs;
      case_id = case_id;
      revision = revision;
      pack = pack_same ∙ pack;
      version = version_same ∙ version;
    })

answer_load-IsPinned :
    {Bytes : Type 0} (adapter : DeterministicPlanningAdapter Bytes) (r : PlanningAdapterRequest)
    (l : Loaded) {payload : AdapterPayload Bytes}
    → ((s : PersistedSyntheticSnapshot) → l ≡ snapshot_of s → exact_case_organization s ≡ ok s)
    → answer_load adapter r l ≡ delivered payload
    → (i : PlanningInput) × (payload.payload ≡ adapter.dump i) × IsPinned r i
unfolding answer_load
answer_load-IsPinned adapter r (load_error true) valid h = absurd (ground arith)
answer_load-IsPinned adapter r (load_error false) valid h = absurd (ground arith)
answer_load-IsPinned adapter r (snapshot_of s) valid h =
    elim (Option-cases (input_of adapter.demo adapter.delay r s)) [
      | inl absent ↦ absurd (ground (arith, absent))
      | inr (i, found) ↦ (
        i,
        ground (arith, found),
        input_of-IsPinned adapter.demo adapter.delay r s (valid s refl) found,
      )
    ]

generate-parts :
    {Bytes : Type 0} (adapter : DeterministicPlanningAdapter Bytes) (r : PlanningAdapterRequest)
    {payload : AdapterPayload Bytes}
    → generate adapter r ≡ delivered payload
    → answer_load adapter r (adapter.load r) ≡ delivered payload
unfolding generate
generate-parts adapter r h = ground arith

-- A payload of the deterministic adapter, whose repository gives valid snapshots only, is the
-- serialisation of an input with all the pins of the request.
pub generate-IsPinned :
    {Bytes : Type 0} (adapter : DeterministicPlanningAdapter Bytes) (r : PlanningAdapterRequest)
    {payload : AdapterPayload Bytes}
    → ((s : PersistedSyntheticSnapshot)
        → adapter.load r ≡ snapshot_of s
        → exact_case_organization s ≡ ok s)
    → generate adapter r ≡ delivered payload
    → (i : PlanningInput) × (payload.payload ≡ adapter.dump i) × IsPinned r i
generate-IsPinned adapter r valid h =
    answer_load-IsPinned adapter r (adapter.load r) valid (generate-parts adapter r h)
