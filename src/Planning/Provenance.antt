-- ===== src/Planning/Provenance.antt =====
-- `_validate_provenance` of planning/policy.py.
use Prim.Native.String.{◌++◌ as str_append}
use night_voyager.Base.{
  if◌then◌else◌, ◌==◌, ◌!=◌, nat_eq, string_eq, option_eq, length, any, contains, dedup, list_eq,
  dict_get, is_unique, String, Bool, true, not, ◌||◌, Option, none, some, List, ◌∷◌, ◌++◌, map,
}
use night_voyager.Planning.Enums.{
  untrusted_candidate, evidence_authority_eq, redistribution_class_eq, Country, country_eq,
  country_value, route_outcome_eq, run_state_eq, case_state_eq,
}
use night_voyager.Planning.Models.{
  Uuid, SourcePackEntry, EvidenceRef, CostEvidence, RankingEvidence, PlanningInput,
}
use night_voyager.Planning.Contract.{claims_of}

-- The set literal of organization ids, as the list of its elements with repetitions.
unfoldable pub organization_ids : PlanningInput → List Uuid
organization_ids i =
    i.organization_id
    ∷ i.case.organization_id
    ∷ i.source_pack.organization_id
    ∷ (map (λ e. e.organization_id) i.evidence
        ++ (map (λ c. c.organization_id) i.costs ++ map (λ r. r.organization_id) i.rankings))

abbrev pub get_entry : PlanningInput → Uuid → Option SourcePackEntry
get_entry i k = dict_get (λ e. e.entry_id) k i.source_pack.entries

abbrev pub entry_mismatch : EvidenceRef → Option SourcePackEntry → Bool
entry_mismatch e none = true
entry_mismatch e (some entry) =
    (e.source_sha256 != entry.sha256) || not (contains e.claim entry.coverage)

-- The test in the loop over the evidence.
unfoldable pub evidence_is_rejected : PlanningInput → EvidenceRef → Bool
evidence_is_rejected i e =
    (e.authority == untrusted_candidate)
    || ((e.source_pack_id != i.source_pack.pack_id)
        || ((e.source_pack_version != i.source_pack.version)
            || entry_mismatch e (get_entry i e.source_entry_id)))

-- `evidence_by_id.get(key)` is missing, or carries another claim than the expected one.
abbrev pub claim_mismatch : String → Option EvidenceRef → Bool
claim_mismatch expected none = true
claim_mismatch expected (some e) = e.claim != expected

abbrev pub get_evidence_by_id : PlanningInput → Uuid → Option EvidenceRef
get_evidence_by_id i k = dict_get (λ e. e.evidence_id) k i.evidence

-- `f"{country.value}{suffix}"`
abbrev pub country_claim : Country → String → String
country_claim c suffix = str_append (country_value c) suffix

-- The test in the loop over the costs.
unfoldable pub cost_is_rejected : PlanningInput → CostEvidence → Bool
cost_is_rejected i c =
    claim_mismatch (country_claim c.country "_tuition") (get_evidence_by_id i c.tuition_evidence_id)
    || (claim_mismatch (country_claim c.country "_living_cost")
          (get_evidence_by_id i c.living_evidence_id)
        || claim_mismatch (country_claim c.country "_fx") (get_evidence_by_id i c.fx_evidence_id))

-- The test in the loop over the rankings.
unfoldable pub ranking_is_rejected : PlanningInput → RankingEvidence → Bool
ranking_is_rejected i r =
    claim_mismatch (country_claim r.country "_ranking") (get_evidence_by_id i r.evidence_id)

unfoldable pub validate_provenance : PlanningInput → Option String
validate_provenance i =
    if not (length (dedup (organization_ids i)) == 1)
    then some "tenant_mismatch"
    else if not (is_unique (map (λ e. e.evidence_id) i.evidence))
        || not (is_unique (claims_of i.evidence))
    then some "evidence_provenance_invalid"
    else if any (evidence_is_rejected i) i.evidence
    then some "evidence_provenance_invalid"
    else if any (cost_is_rejected i) i.costs
    then some "evidence_provenance_invalid"
    else if any (ranking_is_rejected i) i.rankings
    then some "evidence_provenance_invalid"
    else none
