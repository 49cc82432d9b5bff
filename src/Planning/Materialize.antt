-- ===== src/Planning/Materialize.antt =====
-- planning/synthetic.py and planning/intake_fixture.py: a persisted snapshot becomes a planning input
-- on one of two frozen fixtures. What is read from a fixture's files is an argument.
use night_voyager.Base.{
  if◌then◌else◌, ◌==◌, ◌!=◌, nat_eq, string_eq, option_eq, select, contains, list_eq, ℕ, String,
  Bool, true, not, ◌&&◌, ◌||◌, List, [], ◌∷◌, map,
}
use night_voyager.Base.Results.{Result, ok, err, ◌>>=◌}
use night_voyager.Calendar.{date_eq}
use night_voyager.Planning.Enums.{
  evidence_authority_eq, evidence_class_eq, redistribution_class_eq, country_eq, route_outcome_eq,
  run_state_eq, case_state_eq,
}
use night_voyager.Planning.Models.{
  Uuid, StudentCaseRevision, SourcePackManifest, EvidenceRef, CostEvidence, RankingEvidence,
  synthetic, PlanningInput,
}
use night_voyager.Planning.Scope.{preferred_country_scope_is_valid}
use night_voyager.Planning.MixedBaseline.{baseline_source_pack_id, baseline_source_pack_version}

pub record PersistedSyntheticSnapshot : Type 0 where
  pub schema_version : ℕ
  pub organization_id : Uuid
  pub case : StudentCaseRevision
  pub source_pack_id : Uuid
  pub source_pack_version : ℕ
  pub policy_version : String

-- `PersistedSyntheticSnapshotV1.exact_case_organization`
unfoldable pub exact_case_organization :
    PersistedSyntheticSnapshot → Result PersistedSyntheticSnapshot
exact_case_organization snapshot =
    if snapshot.organization_id != snapshot.case.organization_id
    then err "snapshot organization must match the persisted Case"
    else ok snapshot

-- The digest of the manifest's bytes, and what `validate_planning_fixture` gives for it.
pub record Fixture : Type 0 where
  pub raw_manifest_sha256 : String
  pub manifest_sha256 : String
  pub planning_input : PlanningInput

abbrev pub intake_delay_source_pack_id : Uuid
intake_delay_source_pack_id = 106_338_239_662_793_269_832_304_564_822_427_566_103

abbrev intake_delay_intake : String
intake_delay_intake = "2028-02"

abbrev baseline_policy_version : String
baseline_policy_version = "m3a-policy-v1"

unfoldable pub load_exact_synthetic_baseline : Fixture → Result PlanningInput
load_exact_synthetic_baseline fixture =
    if fixture.raw_manifest_sha256
      != "5d455d2c409c322e093f3a116387f3cef0fb7ea0f7357fec5e76e9da5b3a2a25"
    then err "synthetic baseline raw manifest mismatch"
    else if (fixture.planning_input.source_pack.pack_id != baseline_source_pack_id)
        || ((fixture.planning_input.source_pack.version != baseline_source_pack_version)
            || (fixture.manifest_sha256
                != "84350ea5705d9681d3e6550e1bd06e3340a9fcf0e7e7bbed4478ed3403405f28"))
    then err "synthetic baseline identity mismatch"
    else ok fixture.planning_input

-- `len(value.costs) != 1 or value.costs[0].intake != INTAKE_DELAY_INTAKE`
abbrev cost_intake_differs : List CostEvidence → Bool
cost_intake_differs (c ∷ []) = c.intake != intake_delay_intake
cost_intake_differs _ = true

unfoldable pub load_exact_intake_delay_fixture : Fixture → Result PlanningInput
load_exact_intake_delay_fixture fixture =
    if fixture.raw_manifest_sha256
      != "27cde816426600fe355eaca842a028b451395be5c9ded0b0e29418d58998cee2"
    then err "intake fixture raw manifest mismatch"
    else if (fixture.planning_input.source_pack.pack_id != intake_delay_source_pack_id)
        || ((fixture.planning_input.source_pack.version != 1)
            || ((fixture.manifest_sha256
                  != "832aab1715564dee0e3a4530a181ccd4581bb7e5199144cb34dc55b20077add1")
                || ((fixture.planning_input.case.student.intake != intake_delay_intake)
                    || cost_intake_differs fixture.planning_input.costs)))
    then err "intake fixture identity mismatch"
    else ok fixture.planning_input

-- The fixture that the pins of a snapshot name.
unfoldable pub choose_baseline :
    Fixture → Fixture → PersistedSyntheticSnapshot → Result PlanningInput
choose_baseline demo delay snapshot =
    if (snapshot.source_pack_id == baseline_source_pack_id)
      && ((snapshot.source_pack_version == baseline_source_pack_version)
          && (snapshot.policy_version == baseline_policy_version))
    then load_exact_synthetic_baseline demo
    else if (snapshot.source_pack_id == intake_delay_source_pack_id)
        && ((snapshot.source_pack_version == 1)
            && (snapshot.policy_version == baseline_policy_version))
    then if snapshot.case.student.intake != intake_delay_intake
      then err "persisted intake does not match source pack"
      else load_exact_intake_delay_fixture delay
    else err "persisted synthetic snapshot pins are invalid"

-- `model_copy(update={"organization_id": ...})`
abbrev pub evidence_for : Uuid → EvidenceRef → EvidenceRef
evidence_for org e = record {
  schema_version = e.schema_version;
  organization_id = org;
  evidence_id = e.evidence_id;
  claim = e.claim;
  source_pack_id = e.source_pack_id;
  source_pack_version = e.source_pack_version;
  source_entry_id = e.source_entry_id;
  source_sha256 = e.source_sha256;
  authority = e.authority;
}

abbrev pub cost_for : Uuid → CostEvidence → CostEvidence
cost_for org c = record {
  schema_version = c.schema_version;
  organization_id = org;
  country = c.country;
  intake = c.intake;
  period = c.period;
  currency = c.currency;
  tuition_minor = c.tuition_minor;
  living_minor = c.living_minor;
  fx_rate = c.fx_rate;
  fx_source = c.fx_source;
  fx_date = c.fx_date;
  tuition_evidence_id = c.tuition_evidence_id;
  living_evidence_id = c.living_evidence_id;
  fx_evidence_id = c.fx_evidence_id;
}

abbrev pub ranking_for : Uuid → RankingEvidence → RankingEvidence
ranking_for org r = record {
  schema_version = r.schema_version;
  organization_id = org;
  country = r.country;
  ranking_system = r.ranking_system;
  rank = r.rank;
  publication_year = r.publication_year;
  evidence_id = r.evidence_id;
}

abbrev pub pack_for : Uuid → SourcePackManifest → SourcePackManifest
pack_for org p = record {
  schema_version = p.schema_version;
  organization_id = org;
  pack_id = p.pack_id;
  version = p.version;
  entries = p.entries;
}

-- The input on a baseline, with the rows of the selected countries.
abbrev pub materialized : PersistedSyntheticSnapshot → PlanningInput → PlanningInput
materialized snapshot baseline =
    let org = snapshot.organization_id in
    let selected = snapshot.case.student.preferred_countries in
    record {
      kind = synthetic;
      schema_version = 1;
      organization_id = org;
      case = snapshot.case;
      source_pack = pack_for org baseline.source_pack;
      evidence = map (evidence_for org) baseline.evidence;
      costs = select (λ c. contains c.country selected) (map (cost_for org) baseline.costs);
      rankings =
          select (λ r. contains r.country selected) (map (ranking_for org) baseline.rankings);
      narrative = baseline.narrative;
    }

unfoldable pub materialize_on : PersistedSyntheticSnapshot → PlanningInput → Result PlanningInput
materialize_on snapshot baseline =
    if not (preferred_country_scope_is_valid snapshot.case.student.preferred_countries)
    then err "persisted preferred_countries scope is invalid"
    else ok (materialized snapshot baseline)

unfoldable pub materialize_persisted_synthetic_input :
    Fixture → Fixture → PersistedSyntheticSnapshot → Result PlanningInput
materialize_persisted_synthetic_input demo delay snapshot =
    choose_baseline demo delay snapshot >>= materialize_on snapshot
