-- ===== src/Planning/MixedBaseline.antt =====
-- `validate_governed_mixed_payload_baseline` of planning/mixed.py. The frozen baseline, which the
-- code loads from a file of pinned digest, is an argument. A missing key of a dict is the error
-- "KeyError"; the other errors are the code's.
use night_voyager.Planning.Rows.{rows_differ, entry_beq, same_evidence, cost_beq, ranking_beq}
use Prim.Native.String.{◌++◌ as str_append}
use night_voyager.Base.{
  leb, if◌then◌else◌, ◌!=◌, nat_eq, string_eq, option_eq, any, select, contains, list_eq, dict_get,
  set_beq, is_unique, ℕ, String, Bool, true, not, ◌&&◌, ◌||◌, Option, none, some, List, [], ◌∷◌,
  map,
}
use night_voyager.Base.Results.{Result, ok, err, ◌>>=◌}
use night_voyager.Calendar.{date_eq}
use night_voyager.Planning.Enums.{
  externally_verified, evidence_authority_eq, evidence_class_eq, link_only, redistribution_class_eq,
  Country, country_eq, country_value, route_outcome_eq, run_state_eq, case_state_eq,
}
use night_voyager.Planning.Models.{
  Uuid, SourcePackEntry, EvidenceRef, CostEvidence, RankingEvidence, PlanningInput,
}
use night_voyager.Planning.Scope.{preferred_country_scope_is_valid}

abbrev pub baseline_source_pack_id : Uuid
baseline_source_pack_id = 106_338_239_662_793_269_832_304_564_822_427_566_081

abbrev pub baseline_source_pack_version : ℕ
baseline_source_pack_version = 1

abbrev pub external_claim : String
external_claim = "australia_program_fit"

abbrev drift : String
drift = "governed mixed payload baseline drift"

-- `entry.model_copy(update={"coverage": ...})` without the external claim.
abbrev without_external : SourcePackEntry → SourcePackEntry
without_external e = record {
  schema_version = e.schema_version;
  entry_id = e.entry_id;
  path = e.path;
  sha256 = e.sha256;
  snapshot_date = e.snapshot_date;
  publisher = e.publisher;
  institution = e.institution;
  canonical_url = e.canonical_url;
  freshness_days = e.freshness_days;
  redistribution_class = e.redistribution_class;
  evidence_class = e.evidence_class;
  coverage = select (λ claim. claim != external_claim) e.coverage;
  known_gaps = e.known_gaps;
}

abbrev pub entry_in : PlanningInput → Uuid → Option SourcePackEntry
entry_in i k = dict_get SourcePackEntry.entry_id k i.source_pack.entries

abbrev pub evidence_by_claim : List EvidenceRef → String → Option EvidenceRef
evidence_by_claim evidence claim = dict_get EvidenceRef.claim claim evidence

-- `entries.get(baseline_entry.entry_id) != expected`
abbrev entry_drifts : PlanningInput → SourcePackEntry → Bool
entry_drifts i baseline_entry = elim (entry_in i baseline_entry.entry_id) [
  | none ↦ true
  | some entry ↦ not (entry_beq entry (without_external baseline_entry))
]

-- The tests of the external item's entry.
abbrev external_drifts : EvidenceRef → Option SourcePackEntry → Bool
external_drifts external none = true
external_drifts external (some entry) =
    (entry.coverage != (external_claim ∷ []))
    || ((entry.sha256 != external.source_sha256) || (entry.redistribution_class != link_only))

abbrev entry_ids : List SourcePackEntry → List Uuid
entry_ids = map SourcePackEntry.entry_id

abbrev external_differs : PlanningInput → PlanningInput → EvidenceRef → Bool
external_differs baseline i external =
    not (
      set_beq (entry_ids i.source_pack.entries)
        (external.source_entry_id ∷ entry_ids baseline.source_pack.entries))
    || (not (is_unique (map EvidenceRef.evidence_id i.evidence))
        || ((external.authority != externally_verified)
            || external_drifts external (entry_in i external.source_entry_id)))

-- `entry is None or sha differs or claim not in coverage`
abbrev pub untraced : EvidenceRef → Option SourcePackEntry → Bool
untraced e none = true
untraced e (some entry) = (e.source_sha256 != entry.sha256) || not (contains e.claim entry.coverage)

-- One turn of the loop over the claims, whose keys are unique here.
abbrev pub evidence_drifts : PlanningInput → PlanningInput → EvidenceRef → Bool
evidence_drifts baseline i e =
    (e.organization_id != i.organization_id)
    || ((e.source_pack_id != i.source_pack.pack_id)
        || ((e.source_pack_version != i.source_pack.version)
            || (untraced e (entry_in i e.source_entry_id)
                || ((e.claim != external_claim)
                    && elim (evidence_by_claim baseline.evidence e.claim) [
                      | none ↦ true
                      | some expected ↦ not (same_evidence e expected)
                    ]))))

-- `evidence_id_by_claim[f"{country}{suffix}"]`
abbrev id_of_claim : PlanningInput → Country → String → Result Uuid
id_of_claim i country suffix =
    elim (evidence_by_claim i.evidence (str_append (country_value country) suffix)) [
      | none ↦ err "KeyError"
      | some e ↦ ok e.evidence_id
    ]

abbrev expected_cost : PlanningInput → CostEvidence → Result CostEvidence
expected_cost i c = do
  tuition_id ← id_of_claim i c.country "_tuition"
  living_id ← id_of_claim i c.country "_living_cost"
  fx_id ← id_of_claim i c.country "_fx"
  ok (record {
    schema_version = c.schema_version;
    organization_id = i.organization_id;
    country = c.country;
    intake = c.intake;
    period = c.period;
    currency = c.currency;
    tuition_minor = c.tuition_minor;
    living_minor = c.living_minor;
    fx_rate = c.fx_rate;
    fx_source = c.fx_source;
    fx_date = c.fx_date;
    tuition_evidence_id = tuition_id;
    living_evidence_id = living_id;
    fx_evidence_id = fx_id;
  })

abbrev expected_ranking : PlanningInput → RankingEvidence → Result RankingEvidence
expected_ranking i r = do
  evidence ← id_of_claim i r.country "_ranking"
  ok (record {
    schema_version = r.schema_version;
    organization_id = i.organization_id;
    country = r.country;
    ranking_system = r.ranking_system;
    rank = r.rank;
    publication_year = r.publication_year;
    evidence_id = evidence;
  })

-- `tuple(f(x) for x in xs)` where `f` may raise.
abbrev pub traverse : {A B : Type 0} → (A → Result B) → List A → Result (List B)
traverse f [] = ok []
traverse f (x ∷ xs) = do y ← f x; ys ← traverse f xs; ok (y ∷ ys)

-- The rows that `project_selected_country_rows` keeps, in a scope that is valid.
abbrev rows_drift : PlanningInput → List CostEvidence → List RankingEvidence → Result (Unit {0})
rows_drift i costs rankings =
    let selected = i.case.student.preferred_countries in
    if not (preferred_country_scope_is_valid selected)
    then err "persisted preferred_countries scope is invalid"
    else if rows_differ cost_beq i.costs (select (λ c. contains c.country selected) costs)
        || rows_differ ranking_beq i.rankings (select (λ r. contains r.country selected) rankings)
    then err drift
    else ok tt

abbrev check_rows : PlanningInput → PlanningInput → Result (Unit {0})
check_rows baseline i = do
  costs ← traverse (expected_cost i) baseline.costs
  rankings ← traverse (expected_ranking i) baseline.rankings
  rows_drift i costs rankings

unfoldable pub validate_governed_mixed_payload_baseline :
    PlanningInput → PlanningInput → Result (Unit {0})
validate_governed_mixed_payload_baseline baseline i =
    if (i.source_pack.pack_id != baseline_source_pack_id)
      || leb i.source_pack.version baseline_source_pack_version
    then err drift
    else if not (is_unique (entry_ids i.source_pack.entries))
        || (not (is_unique (map EvidenceRef.claim i.evidence))
            || not (
                set_beq (map EvidenceRef.claim i.evidence)
                  (map EvidenceRef.claim baseline.evidence)))
    then err drift
    else if any (entry_drifts i) baseline.source_pack.entries
    then err drift
    else elim (evidence_by_claim i.evidence external_claim) [
      | none ↦ err "KeyError"
      | some external ↦
          if external_differs baseline i external
          then err drift
          else if any (evidence_drifts baseline i) i.evidence
          then err drift
          else check_rows baseline i
    ]
