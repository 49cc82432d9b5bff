-- ===== src/Tasks/Deterministic.antt =====
-- `DeterministicPlanningAdapter.generate` of adapters/deterministic_planning.py. The snapshot's
-- repository and the serialisation of an input are parameters.
use night_voyager.Base.{
  if◌then◌else◌, ◌!=◌, nat_eq, string_eq, option_eq, list_eq, Bool, ◌||◌, Option, none, some,
}
use night_voyager.Base.Results.{ok, err}
use night_voyager.Planning.Models.{PlanningInput}
use night_voyager.Planning.Materialize.{
  PersistedSyntheticSnapshot, Fixture, materialize_persisted_synthetic_input,
}
use night_voyager.Tasks.Models.{
  agent_task_state_eq, AdapterFailureCode, adapter_failure_code_eq, generate_planning_run_v1,
  planning_operation_eq, deterministic_planning, adapter_id_eq, m4a_v1, adapter_version_eq,
}
use night_voyager.Tasks.Adapter.{
  PlanningAdapterRequest, AdapterOutcome, delivered, failure, leaf_eq, Adapter,
}

-- What the repository answers: a snapshot, or a load error that may be retried.
pub data Loaded : Type 0 where
  snapshot_of : PersistedSyntheticSnapshot → Loaded
  load_error : Bool → Loaded

pub record DeterministicPlanningAdapter (Bytes : Type 0) : Type 0 where
  pub load : PlanningAdapterRequest → Loaded
  pub injected_failure : Option AdapterFailureCode
  pub demo : Fixture
  pub delay : Fixture
  pub dump : PlanningInput → Bytes

unfoldable pub snapshot_differs : PersistedSyntheticSnapshot → PlanningAdapterRequest → Bool
snapshot_differs s r =
    (s.organization_id != r.organization_id)
    || ((s.case.case_id != r.case_id)
        || ((s.case.revision != r.case_revision)
            || ((s.source_pack_id != r.source_pack_id)
                || ((s.source_pack_version != r.source_pack_version)
                    || (s.policy_version != r.policy_version)))))

-- The input that a snapshot gives, unless it differs from the request.
unfoldable pub input_of :
    Fixture → Fixture → PlanningAdapterRequest → PersistedSyntheticSnapshot → Option PlanningInput
input_of demo delay request snapshot =
    if snapshot_differs snapshot request
    then none
    else elim (materialize_persisted_synthetic_input demo delay snapshot) [
      | err _ ↦ none
      | ok i ↦ some i
    ]

-- The payload is built with the default pair of the model.
abbrev deliver : {Bytes : Type 0} → Bytes → AdapterOutcome Bytes
deliver bytes =
    delivered
      (record { payload = bytes; adapter_id = deterministic_planning; adapter_version = m4a_v1 })

unfoldable pub answer_load :
    {Bytes : Type 0}
    → DeterministicPlanningAdapter Bytes
    → PlanningAdapterRequest
    → Loaded
    → AdapterOutcome Bytes
answer_load adapter request (load_error retryable) =
    if retryable
    then failure AdapterFailureCode.transient_unavailable
    else failure AdapterFailureCode.pin_mismatch
answer_load adapter request (snapshot_of snapshot) =
    elim (input_of adapter.demo adapter.delay request snapshot) [
      | none ↦ failure AdapterFailureCode.pin_mismatch
      | some i ↦ deliver (adapter.dump i)
    ]

unfoldable pub generate : {Bytes : Type 0} → DeterministicPlanningAdapter Bytes → Adapter Bytes
generate adapter request = elim adapter.injected_failure [
  | some code ↦ failure code
  | none ↦
      if request.operation != generate_planning_run_v1
      then failure AdapterFailureCode.pin_mismatch
      else answer_load adapter request (adapter.load request)
]
