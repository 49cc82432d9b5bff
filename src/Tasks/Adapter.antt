-- ===== src/Tasks/Adapter.antt =====
-- The adapter protocol (adapters/protocols.py), the leaf binding of skills/models.py, and the
-- router of adapters/router.py. An adapter is a function from requests to outcomes.
use night_voyager.Base.Results.{Result, ok, err}
use night_voyager.Base.{
  if◌then◌else◌, HasEq, ◌==◌, ◌!=◌, nat_eq, string_eq, option_eq, list_eq, ℕ, String, ◌≡◌, ◌↔◌,
  Bool, true, ◌&&◌, ◌||◌, arith,
}
use night_voyager.Planning.Models.{Uuid}
use night_voyager.Tasks.Models.{
  agent_task_state_eq, AdapterFailureCode, adapter_failure_code_eq, PlanningOperation,
  generate_planning_run_v1, generate_governed_mixed_planning_run_v1, planning_operation_beq_iff,
  planning_operation_eq, AdapterId, deterministic_planning, governed_mixed_planning,
  adapter_id_beq_iff, adapter_id_eq, AdapterVersion, m4a_v1, dra_mixed_v1, adapter_version_beq_iff,
  adapter_version_eq,
}

pub record PlanningAdapterRequest : Type 0 where
  pub schema_version : ℕ
  pub operation : PlanningOperation
  pub organization_id : Uuid
  pub case_id : Uuid
  pub case_revision : ℕ
  pub source_pack_id : Uuid
  pub source_pack_version : ℕ
  pub policy_version : String

-- A payload's bytes are of a type of their own, of which the size is read.
pub record AdapterPayload (Bytes : Type 0) : Type 0 where
  pub payload : Bytes
  pub adapter_id : AdapterId
  pub adapter_version : AdapterVersion

pub data AdapterOutcome (Bytes : Type 0) : Type 0 where
  delivered : AdapterPayload Bytes → AdapterOutcome Bytes
  failure : AdapterFailureCode → AdapterOutcome Bytes

pub record SkillLeafBinding : Type 0 where
  pub operation : PlanningOperation
  pub adapter_id : AdapterId
  pub adapter_version : AdapterVersion

abbrev pub leaf_beq : SkillLeafBinding → SkillLeafBinding → Bool
leaf_beq a b =
    (a.operation == b.operation)
    && ((a.adapter_id == b.adapter_id) && (a.adapter_version == b.adapter_version))

pub leaf_beq_iff : (a b : SkillLeafBinding) → (leaf_beq a b ≡ true) ↔ (a ≡ b)
leaf_beq_iff a b = ground (
  arith,
  planning_operation_beq_iff a.operation b.operation,
  adapter_id_beq_iff a.adapter_id b.adapter_id,
  adapter_version_beq_iff a.adapter_version b.adapter_version,
)

instance abbrev pub leaf_eq : HasEq SkillLeafBinding
leaf_eq = record { eqb = leaf_beq; eqb_iff = leaf_beq_iff }

-- `expected[operation]`
abbrev pub expected_leaf : PlanningOperation → SkillLeafBinding
expected_leaf generate_planning_run_v1 = record {
  operation = generate_planning_run_v1;
  adapter_id = deterministic_planning;
  adapter_version = m4a_v1;
}
expected_leaf generate_governed_mixed_planning_run_v1 = record {
  operation = generate_governed_mixed_planning_run_v1;
  adapter_id = governed_mixed_planning;
  adapter_version = dra_mixed_v1;
}

-- `SkillLeafBindingV1(...)` with its validator.
unfoldable pub make_leaf_binding :
    PlanningOperation → AdapterId → AdapterVersion → Result SkillLeafBinding
make_leaf_binding operation adapter_id adapter_version =
    if (adapter_id != (expected_leaf operation).adapter_id)
      || (adapter_version != (expected_leaf operation).adapter_version)
    then err "operation leaf must be an approved exact binding"
    else ok (record {
      operation = operation;
      adapter_id = adapter_id;
      adapter_version = adapter_version;
    })

-- `AdapterPayload(...)` with `exact_adapter_pair`.
unfoldable pub make_adapter_payload :
    {Bytes : Type 0} → Bytes → AdapterId → AdapterVersion → Result (AdapterPayload Bytes)
make_adapter_payload payload adapter_id adapter_version =
    if ((adapter_id == deterministic_planning) && (adapter_version == m4a_v1))
      || ((adapter_id == governed_mixed_planning) && (adapter_version == dra_mixed_v1))
    then ok
        (record { payload = payload; adapter_id = adapter_id; adapter_version = adapter_version })
    else err "adapter identity must be an approved exact pair"

abbrev pub Adapter : Type 0 → Type 0
Adapter Bytes = PlanningAdapterRequest → AdapterOutcome Bytes

pub record PlanningAdapterResolution (Bytes : Type 0) : Type 0 where
  pub leaf_binding : SkillLeafBinding
  pub adapter : Adapter Bytes

-- `PlanningAdapterRouter`: its two adapters.
pub record PlanningAdapterRouter (Bytes : Type 0) : Type 0 where
  pub synthetic : Adapter Bytes
  pub mixed : Adapter Bytes

-- The text of an operation is one of two or another.
abbrev pub operation_text : PlanningOperation → String
operation_text generate_planning_run_v1 = "generate_planning_run_v1"
operation_text generate_governed_mixed_planning_run_v1 = "generate_governed_mixed_planning_run_v1"

unfoldable pub resolve :
    {Bytes : Type 0}
    → PlanningAdapterRouter Bytes
    → String
    → Result (PlanningAdapterResolution Bytes)
resolve router operation =
    if operation == "generate_planning_run_v1"
    then ok (record {
      leaf_binding = expected_leaf generate_planning_run_v1;
      adapter = router.synthetic;
    })
    else if operation == "generate_governed_mixed_planning_run_v1"
    then ok (record {
      leaf_binding = expected_leaf generate_governed_mixed_planning_run_v1;
      adapter = router.mixed;
    })
    else err "unsupported planning operation"

-- `PlanningAdapterRouter.generate`
unfoldable pub route_request :
    {Bytes : Type 0} → PlanningAdapterRouter Bytes → PlanningAdapterRequest → AdapterOutcome Bytes
route_request router request = elim (resolve router (operation_text request.operation)) [
  | err _ ↦ failure AdapterFailureCode.pin_mismatch
  | ok resolution ↦ resolution.adapter request
]
