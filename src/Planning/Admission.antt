-- ===== src/Planning/Admission.antt =====
-- What the contract and provenance checks of `evaluate_planning_run` let through.
use mathlib.Core.List.{Memᴰ}
use night_voyager.Base.{
  or_false, ◌==◌, ◌!=◌, nat_eq, string_eq, eq_of_bne, ne_of_beq, option_eq, length, any, All,
  contains, dedup, list_eq, is_unique, ◌≡◌, refl, ◌≢◌, ◌⊎◌, true, false, Option, none, some, List,
  [], ◌∷◌, ◌++◌, map, arith,
}
use night_voyager.Base.ListLaws.{
  any-false, All-imp, All-map, All-append, contains_mem, dedup-one, dict_get-eq-some,
}
use night_voyager.Planning.Enums.{
  untrusted_candidate, evidence_authority_eq, evidence_class_eq, redistribution_class_eq,
  country_eq, route_outcome_eq, RunState, run_state_eq, case_state_eq,
}
use night_voyager.Planning.Models.{
  Uuid, SourcePackEntry, EvidenceRef, PlanningInput, PlanningResult,
}
use night_voyager.Planning.Contract.{claims_of, validate_contract}
use night_voyager.Planning.Provenance.{
  organization_ids, entry_mismatch, evidence_is_rejected, cost_is_rejected, validate_provenance,
}
use night_voyager.Planning.Policy.{assess_routes, evaluate_planning_run}

-- Both checks pass.
abbrev pub IsAdmitted : PlanningInput → Type 0
IsAdmitted i = (validate_contract i ≡ none) × (validate_provenance i ≡ none)

assess_routes-state :
    (i : PlanningInput) {r : PlanningResult} → assess_routes i ≡ some r → r.state ≢ RunState.failed
unfolding assess_routes
assess_routes-state i h = ground arith

pub evaluate-IsAdmitted :
    (i : PlanningInput) {r : PlanningResult}
    → evaluate_planning_run i ≡ some r
    → r.state ≢ RunState.failed
    → IsAdmitted i
unfolding evaluate_planning_run
evaluate-IsAdmitted i h live = ground arith

pub evaluate_of_IsAdmitted :
    (i : PlanningInput) → IsAdmitted i → evaluate_planning_run i ≡ assess_routes i
unfolding evaluate_planning_run
evaluate_of_IsAdmitted i h = rw (h.0, h.1, evaluate_planning_run)

-- A run that fails has no route, and its reason is the contract's or, where the contract names none,
-- that of the provenance check.
pub evaluate-failed :
    (i : PlanningInput) {r : PlanningResult}
    → evaluate_planning_run i ≡ some r
    → r.state ≡ RunState.failed
    → (r.routes ≡ [])
      × ((validate_contract i ≡ some r.reason_code)
          ⊎ ((validate_contract i ≡ none) × (validate_provenance i ≡ some r.reason_code)))
unfolding evaluate_planning_run
evaluate-failed i {r} h stopped = grind (arith, assess_routes-state i {r = r})

abbrev pub BelongsTo : Uuid → PlanningInput → Type 0
BelongsTo org i =
    (i.case.organization_id ≡ org)
    × (i.source_pack.organization_id ≡ org)
    × All (λ e. e.organization_id ≡ org) i.evidence
    × All (λ c. c.organization_id ≡ org) i.costs
    × All (λ r. r.organization_id ≡ org) i.rankings

abbrev row_ids : PlanningInput → List Uuid
row_ids i = map (λ c. c.organization_id) i.costs ++ map (λ k. k.organization_id) i.rankings

abbrev tail_ids : PlanningInput → List Uuid
tail_ids i =
    i.case.organization_id
    ∷ i.source_pack.organization_id
    ∷ (map (λ e. e.organization_id) i.evidence ++ row_ids i)

provenance-one :
    (i : PlanningInput) → validate_provenance i ≡ none → length (dedup (organization_ids i)) ≡ 1
unfolding validate_provenance
provenance-one i h = ground arith

provenance-evidence :
    (i : PlanningInput)
    → validate_provenance i ≡ none
    → any (evidence_is_rejected i) i.evidence ≡ false
unfolding validate_provenance
provenance-evidence i h = ground arith

pub provenance-costs :
    (i : PlanningInput) → validate_provenance i ≡ none → any (cost_is_rejected i) i.costs ≡ false
unfolding validate_provenance
provenance-costs i h = ground arith

pub provenance-claims :
    (i : PlanningInput) → validate_provenance i ≡ none → is_unique (claims_of i.evidence) ≡ true
unfolding validate_provenance
provenance-claims i h = ground arith

-- A run that does not fail reads one tenant's data only: the case, the source pack, and every
-- evidence item, cost and ranking carry the organization of the input.
pub evaluate-one_tenant :
    (i : PlanningInput) {r : PlanningResult}
    → evaluate_planning_run i ≡ some r
    → r.state ≢ RunState.failed
    → BelongsTo i.organization_id i
unfolding organization_ids
evaluate-one_tenant i h live =
    let same : All (λ o. o ≡ i.organization_id) (tail_ids i) =
      dedup-one i.organization_id (tail_ids i)
        (provenance-one i (evaluate-IsAdmitted i h live).1) in
    let rows =
      All-append (λ o. o ≡ i.organization_id) (map (λ e. e.organization_id) i.evidence) (row_ids i)
        same.1.1 in
    let rest =
      All-append (λ o. o ≡ i.organization_id) (map (λ c. c.organization_id) i.costs)
        (map (λ k. k.organization_id) i.rankings) rows.1 in
    (
      same.0,
      same.1.0,
      All-map (λ o. o ≡ i.organization_id) (λ e. e.organization_id) i.evidence rows.0,
      All-map (λ o. o ≡ i.organization_id) (λ c. c.organization_id) i.costs rest.0,
      All-map (λ o. o ≡ i.organization_id) (λ k. k.organization_id) i.rankings rest.1,
    )

-- An evidence item is of the pinned pack and rests on an entry of it that covers its claim.
abbrev pub IsTraceable : PlanningInput → EvidenceRef → Type 0
IsTraceable i e =
    (e.authority ≢ untrusted_candidate)
    × (e.source_pack_id ≡ i.source_pack.pack_id)
    × (e.source_pack_version ≡ i.source_pack.version)
    × ((entry : SourcePackEntry) × Memᴰ entry i.source_pack.entries
        × (entry.entry_id ≡ e.source_entry_id)
        × (e.source_sha256 ≡ entry.sha256)
        × Memᴰ e.claim entry.coverage)

entry_match :
    (e : EvidenceRef) (o : Option SourcePackEntry)
    → entry_mismatch e o ≡ false
    → (entry : SourcePackEntry) × (o ≡ some entry)
      × (e.source_sha256 ≡ entry.sha256)
      × Memᴰ e.claim entry.coverage
entry_match e none h = cc
entry_match e (some entry) h =
    let s : (e.source_sha256 == entry.sha256) ≡ true = ground arith in
    let c : contains e.claim entry.coverage ≡ true = ground arith in
    (entry, refl, (string_eq.eqb_iff _ _).0 s, contains_mem _ _ c)

evidence-IsTraceable :
    (i : PlanningInput) (e : EvidenceRef) → evidence_is_rejected i e ≡ false → IsTraceable i e
unfolding evidence_is_rejected
evidence-IsTraceable i e h =
    let (authority, h1) = or_false (e.authority == untrusted_candidate) _ h in
    let (pack, h2) = or_false (e.source_pack_id != i.source_pack.pack_id) _ h1 in
    let (version, m) = or_false (e.source_pack_version != i.source_pack.version) _ h2 in
    let (entry, found, sha, covered) = entry_match e _ m in
    let r = dict_get-eq-some (λ x. x.entry_id) e.source_entry_id i.source_pack.entries found in
    (ne_of_beq authority, eq_of_bne pack, eq_of_bne version, (entry, r.1, r.0, sha, covered))

-- A run that does not fail rests on traceable evidence only: no item is an untrusted candidate,
-- and each one is of the pinned source pack and version, with the digest of an entry of that pack
-- which covers its claim.
pub evaluate-IsTraceable :
    (i : PlanningInput) {r : PlanningResult}
    → evaluate_planning_run i ≡ some r
    → r.state ≢ RunState.failed
    → All (IsTraceable i) i.evidence
evaluate-IsTraceable i h live =
    All-imp (evidence-IsTraceable i) i.evidence
      (any-false _ i.evidence (provenance-evidence i (evaluate-IsAdmitted i h live).1))
