-- ===== src/Tests/Materialized.antt =====
-- The deterministic adapter on the frozen fixture.
use night_voyager.Planning.Scope.{preferred_country_scope_is_valid}
use night_voyager.Base.{◌≡◌, refl, none, arith}
use night_voyager.Base.Results.{ok}
use night_voyager.Planning.Models.{synthetic, PlanningInput}
use night_voyager.Planning.MixedBaseline.{baseline_source_pack_id}
use night_voyager.Planning.Materialize.{
  PersistedSyntheticSnapshot, exact_case_organization, Fixture, load_exact_synthetic_baseline,
  choose_baseline, materialized, materialize_on, materialize_persisted_synthetic_input,
}
use night_voyager.Tasks.Models.{generate_planning_run_v1, deterministic_planning, m4a_v1}
use night_voyager.Tasks.Adapter.{PlanningAdapterRequest, AdapterPayload, delivered}
use night_voyager.Tasks.Pins.{IsPinned}
use night_voyager.Tasks.Deterministic.{
  snapshot_of, DeterministicPlanningAdapter, snapshot_differs, input_of, answer_load, generate,
}
use night_voyager.Tasks.Materialized.{generate-IsPinned}
use night_voyager.Tests.Golden.{case_revision, source_pack, golden}

abbrev frozen_input : PlanningInput
frozen_input = record {
  kind = synthetic;
  schema_version = 1;
  organization_id = 1;
  case = case_revision;
  source_pack = record {
    schema_version = 1;
    organization_id = 1;
    pack_id = baseline_source_pack_id;
    version = 1;
    entries = source_pack.entries;
  };
  evidence = golden.evidence;
  costs = golden.costs;
  rankings = golden.rankings;
  narrative = none;
}

abbrev fixture : Fixture
fixture = record {
  raw_manifest_sha256 = "5d455d2c409c322e093f3a116387f3cef0fb7ea0f7357fec5e76e9da5b3a2a25";
  manifest_sha256 = "84350ea5705d9681d3e6550e1bd06e3340a9fcf0e7e7bbed4478ed3403405f28";
  planning_input = frozen_input;
}

abbrev snapshot : PersistedSyntheticSnapshot
snapshot = record {
  schema_version = 1;
  organization_id = 10;
  case = case_revision;
  source_pack_id = baseline_source_pack_id;
  source_pack_version = 1;
  policy_version = "m3a-policy-v1";
}

abbrev request : PlanningAdapterRequest
request = record {
  schema_version = 1;
  operation = generate_planning_run_v1;
  organization_id = 10;
  case_id = 40;
  case_revision = 1;
  source_pack_id = baseline_source_pack_id;
  source_pack_version = 1;
  policy_version = "m3a-policy-v1";
}

-- Its bytes are the input itself.
abbrev adapter : DeterministicPlanningAdapter PlanningInput
adapter = record {
  load = λ r. snapshot_of snapshot;
  injected_failure = none;
  demo = fixture;
  delay = fixture;
  dump = λ i. i;
}

abbrev payload : AdapterPayload PlanningInput
payload = record {
  payload = materialized snapshot frozen_input;
  adapter_id = deterministic_planning;
  adapter_version = m4a_v1;
}

adapter_delivers : generate adapter request ≡ delivered payload
unfolding generate answer_load input_of snapshot_differs materialize_persisted_synthetic_input
    choose_baseline load_exact_synthetic_baseline materialize_on preferred_country_scope_is_valid
adapter_delivers = refl

snapshot_valid :
    (s : PersistedSyntheticSnapshot)
    → adapter.load request ≡ snapshot_of s
    → exact_case_organization s ≡ ok s
unfolding exact_case_organization
snapshot_valid s h = ground arith

generate-IsPinned_example :
    (i : PlanningInput) × (payload.payload ≡ adapter.dump i) × IsPinned request i
generate-IsPinned_example = generate-IsPinned adapter request snapshot_valid adapter_delivers
