-- ===== src/Tests/Tasks.antt =====
-- A payload that passes the check, one that fails its evaluation, and failures of adapters.
use night_voyager.Base.{
  ◌==◌, nat_eq, string_eq, option_eq, list_eq, ℕ, ◌≡◌, refl, ◌≢◌, false, not, ◌&&◌, ◌||◌, none,
  some, [], ◌∷◌,
}
use night_voyager.Base.Results.{Result, ok}
use night_voyager.Base.Int.{pos}
use night_voyager.Planning.Enums.{
  evidence_authority_eq, evidence_class_eq, redistribution_class_eq, Country, country_eq,
  route_outcome_eq, run_state_eq, case_state_eq,
}
use night_voyager.Planning.Models.{CostEvidence, synthetic, PlanningInput}
use night_voyager.Planning.Policy.{failed_result, evaluate_planning_run}
use night_voyager.Tasks.Models.{
  AgentTaskState, agent_task_state_eq, agent_task_state_value, AdapterFailureCode,
  adapter_failure_code_eq, adapter_failure_code_value, generate_planning_run_v1,
  planning_operation_eq, deterministic_planning, adapter_id_eq, m4a_v1, adapter_version_eq,
}
use night_voyager.Tasks.Policy.{terminal_recovery_allowed, classify_adapter_outcome}
use night_voyager.Tasks.Outcomes.{is_transient, terminal_recovery_allowed_lem}
use night_voyager.Tasks.Adapter.{PlanningAdapterRequest, AdapterPayload, leaf_eq, expected_leaf}
use night_voyager.Tasks.Json.{
  null, integer, text, array, object, Items, nil, cons, Members, end, member,
}
use night_voyager.Tasks.Payload.{
  PayloadReader, read_object, check_raw, check_leaf, read_input, pins_differ, scope_differs,
  check_authority, check_input, validate_adapter_payload,
}
use night_voyager.Tasks.Pins.{IsPinned, AdmittedAuthorities, validate_adapter_payload-IsPinned}
use night_voyager.Tasks.Evaluated.{evaluate-payload}
use night_voyager.Tests.Golden.{case_revision, source_pack, cost, golden, golden_mixed}
use night_voyager.Tests.Planning.{planning_run}

exhausted :
    (classify_adapter_outcome AdapterFailureCode.lease_expired 3).terminal_state
    ≡ some AgentTaskState.failed
unfolding classify_adapter_outcome
exhausted = refl

terminal_recovery_allowed_lem_example :
    terminal_recovery_allowed
      (agent_task_state_value AgentTaskState.failed)
      (some (adapter_failure_code_value AdapterFailureCode.lease_expired))
      false
    ≡ (not false
        && (is_transient AdapterFailureCode.lease_expired
            || (AdapterFailureCode.lease_expired == AdapterFailureCode.deadline_exceeded)))
terminal_recovery_allowed_lem_example =
    terminal_recovery_allowed_lem AdapterFailureCode.lease_expired 3 false exhausted

abbrev countries : Items
countries = cons (text "australia") (cons (text "japan") (cons (text "malaysia") nil))

-- The raw object, with the members that the check reads.
abbrev raw : Members
raw = member "schema_version" (integer (pos 1)) (
    member "evidence" (array (cons (object end) nil)) (
      member "narrative" null (
        member "case"
          (object
            (member "student" (object (member "preferred_countries" (array countries) end)) end))
          end)))

-- A reader of payloads that are all the raw object, and the input it is read as.
abbrev pub reader_of : PlanningInput → PayloadReader ℕ
reader_of i = record {
  size = λ bytes. bytes;
  loads = λ bytes. some (object raw);
  model_validate = λ members. some i;
  model_validate_json = λ bytes. some golden_mixed;
  baseline = golden;
}

abbrev pub request : PlanningAdapterRequest
request = record {
  schema_version = 1;
  operation = generate_planning_run_v1;
  organization_id = 10;
  case_id = 40;
  case_revision = 1;
  source_pack_id = 50;
  source_pack_version = 1;
  policy_version = "m3a-policy-v1";
}

abbrev pub payload : AdapterPayload ℕ
payload = record { payload = 4096; adapter_id = deterministic_planning; adapter_version = m4a_v1 }

-- Unfolding this opens the payload check.
unfoldable pub check_payload : PlanningInput → Result PlanningInput
unfolding validate_adapter_payload read_object check_raw check_leaf read_input check_input
    pins_differ scope_differs check_authority
check_payload i =
    validate_adapter_payload (reader_of i) payload request
      (some (expected_leaf generate_planning_run_v1))

golden_accepted :
    validate_adapter_payload
      (reader_of golden)
      payload
      request
      (some (expected_leaf generate_planning_run_v1))
    ≡ ok golden
unfolding check_payload
golden_accepted = refl

validate_adapter_payload-IsPinned_example :
    IsPinned request golden
    × AdmittedAuthorities (reader_of golden).baseline.evidence synthetic golden.evidence
    × (generate_planning_run_v1 ≡ generate_planning_run_v1)
    × (deterministic_planning ≡ deterministic_planning)
    × (m4a_v1 ≡ m4a_v1)
validate_adapter_payload-IsPinned_example =
    validate_adapter_payload-IsPinned (reader_of golden) payload request
      (expected_leaf generate_planning_run_v1) golden_accepted

abbrev in_dollars : CostEvidence
in_dollars = record {
  schema_version = 1;
  organization_id = 10;
  country = Country.australia;
  intake = "2027-02";
  period = "program_total";
  currency = "USD";
  tuition_minor = 4_000_000;
  living_minor = 2_500_000;
  fx_rate = cost.fx_rate;
  fx_source = "Synthetic central-bank fixture";
  fx_date = cost.fx_date;
  tuition_evidence_id = 602;
  living_evidence_id = 603;
  fx_evidence_id = 604;
}

-- The golden input with a cost in another currency.
abbrev priced_in_dollars : PlanningInput
priced_in_dollars = record {
  kind = synthetic;
  schema_version = 1;
  organization_id = 10;
  case = case_revision;
  source_pack = source_pack;
  evidence = golden.evidence;
  costs = in_dollars ∷ [];
  rankings = golden.rankings;
  narrative = none;
}

dollars_accepted :
    validate_adapter_payload
      (reader_of priced_in_dollars)
      payload
      request
      (some (expected_leaf generate_planning_run_v1))
    ≡ ok priced_in_dollars
unfolding check_payload
dollars_accepted = refl

dollars_run : evaluate_planning_run priced_in_dollars ≡ some (failed_result "cost_currency_invalid")
unfolding planning_run
dollars_run = refl

evaluate-payload_example : (failed_result "cost_currency_invalid").reason_code ≢ "tenant_mismatch"
evaluate-payload_example =
    evaluate-payload (reader_of priced_in_dollars) payload request
      (expected_leaf generate_planning_run_v1) dollars_accepted dollars_run refl
