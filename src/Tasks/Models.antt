-- ===== src/Tasks/Models.antt =====
-- The enumerations and limits of tasks/models.py, and the failure codes of adapters/protocols.py.
use night_voyager.Base.{HasEq, ℕ, String, ◌≡◌, ◌↔◌, Bool, true, false, arith}

pub data AgentTaskState : Type 0 where
  queued leased running waiting_review succeeded blocked timed_out failed cancelled : AgentTaskState

abbrev pub agent_task_state_beq : AgentTaskState → AgentTaskState → Bool
agent_task_state_beq queued queued = true
agent_task_state_beq leased leased = true
agent_task_state_beq running running = true
agent_task_state_beq waiting_review waiting_review = true
agent_task_state_beq succeeded succeeded = true
agent_task_state_beq blocked blocked = true
agent_task_state_beq timed_out timed_out = true
agent_task_state_beq failed failed = true
agent_task_state_beq cancelled cancelled = true
agent_task_state_beq _ _ = false

pub agent_task_state_beq_iff : (a b : AgentTaskState) → (agent_task_state_beq a b ≡ true) ↔ (a ≡ b)
agent_task_state_beq_iff a b = ground arith

instance abbrev pub agent_task_state_eq : HasEq AgentTaskState
agent_task_state_eq = record { eqb = agent_task_state_beq; eqb_iff = agent_task_state_beq_iff }

abbrev pub agent_task_state_value : AgentTaskState → String
agent_task_state_value queued = "queued"
agent_task_state_value leased = "leased"
agent_task_state_value running = "running"
agent_task_state_value waiting_review = "waiting_review"
agent_task_state_value succeeded = "succeeded"
agent_task_state_value blocked = "blocked"
agent_task_state_value timed_out = "timed_out"
agent_task_state_value failed = "failed"
agent_task_state_value cancelled = "cancelled"

pub data TaskViewStatus : Type 0 where
  preparing needs_advisor_review ready needs_evidence timed_out failed cancelled outdated :
      TaskViewStatus

pub data AdapterFailureCode : Type 0 where
  transient_unavailable transport_interrupted lease_expired deadline_exceeded required_evidence_gap
        invalid_schema pin_mismatch fallback_authority oversize policy_rejected unknown :
      AdapterFailureCode

abbrev pub adapter_failure_code_beq : AdapterFailureCode → AdapterFailureCode → Bool
adapter_failure_code_beq transient_unavailable transient_unavailable = true
adapter_failure_code_beq transport_interrupted transport_interrupted = true
adapter_failure_code_beq lease_expired lease_expired = true
adapter_failure_code_beq deadline_exceeded deadline_exceeded = true
adapter_failure_code_beq required_evidence_gap required_evidence_gap = true
adapter_failure_code_beq invalid_schema invalid_schema = true
adapter_failure_code_beq pin_mismatch pin_mismatch = true
adapter_failure_code_beq fallback_authority fallback_authority = true
adapter_failure_code_beq oversize oversize = true
adapter_failure_code_beq policy_rejected policy_rejected = true
adapter_failure_code_beq unknown unknown = true
adapter_failure_code_beq _ _ = false

pub adapter_failure_code_beq_iff :
    (a b : AdapterFailureCode) → (adapter_failure_code_beq a b ≡ true) ↔ (a ≡ b)
adapter_failure_code_beq_iff a b = ground arith

instance abbrev pub adapter_failure_code_eq : HasEq AdapterFailureCode
adapter_failure_code_eq = record {
  eqb = adapter_failure_code_beq;
  eqb_iff = adapter_failure_code_beq_iff;
}

abbrev pub adapter_failure_code_value : AdapterFailureCode → String
adapter_failure_code_value transient_unavailable = "transient_unavailable"
adapter_failure_code_value transport_interrupted = "transport_interrupted"
adapter_failure_code_value lease_expired = "lease_expired"
adapter_failure_code_value deadline_exceeded = "deadline_exceeded"
adapter_failure_code_value required_evidence_gap = "required_evidence_gap"
adapter_failure_code_value invalid_schema = "invalid_schema"
adapter_failure_code_value pin_mismatch = "pin_mismatch"
adapter_failure_code_value fallback_authority = "fallback_authority"
adapter_failure_code_value oversize = "oversize"
adapter_failure_code_value policy_rejected = "policy_rejected"
adapter_failure_code_value unknown = "unknown"

-- `PlanningOperation`
pub data PlanningOperation : Type 0 where
  generate_planning_run_v1 generate_governed_mixed_planning_run_v1 : PlanningOperation

abbrev pub planning_operation_beq : PlanningOperation → PlanningOperation → Bool
planning_operation_beq generate_planning_run_v1 generate_planning_run_v1 = true
planning_operation_beq generate_governed_mixed_planning_run_v1
      generate_governed_mixed_planning_run_v1 =
    true
planning_operation_beq _ _ = false

pub planning_operation_beq_iff :
    (a b : PlanningOperation) → (planning_operation_beq a b ≡ true) ↔ (a ≡ b)
planning_operation_beq_iff a b = ground arith

instance abbrev pub planning_operation_eq : HasEq PlanningOperation
planning_operation_eq = record {
  eqb = planning_operation_beq;
  eqb_iff = planning_operation_beq_iff;
}

pub data AdapterId : Type 0 where
  deterministic_planning governed_mixed_planning : AdapterId

abbrev pub adapter_id_beq : AdapterId → AdapterId → Bool
adapter_id_beq deterministic_planning deterministic_planning = true
adapter_id_beq governed_mixed_planning governed_mixed_planning = true
adapter_id_beq _ _ = false

pub adapter_id_beq_iff : (a b : AdapterId) → (adapter_id_beq a b ≡ true) ↔ (a ≡ b)
adapter_id_beq_iff a b = ground arith

instance abbrev pub adapter_id_eq : HasEq AdapterId
adapter_id_eq = record { eqb = adapter_id_beq; eqb_iff = adapter_id_beq_iff }

pub data AdapterVersion : Type 0 where
  m4a_v1 dra_mixed_v1 : AdapterVersion

abbrev pub adapter_version_beq : AdapterVersion → AdapterVersion → Bool
adapter_version_beq m4a_v1 m4a_v1 = true
adapter_version_beq dra_mixed_v1 dra_mixed_v1 = true
adapter_version_beq _ _ = false

pub adapter_version_beq_iff : (a b : AdapterVersion) → (adapter_version_beq a b ≡ true) ↔ (a ≡ b)
adapter_version_beq_iff a b = ground arith

instance abbrev pub adapter_version_eq : HasEq AdapterVersion
adapter_version_eq = record { eqb = adapter_version_beq; eqb_iff = adapter_version_beq_iff }

-- `TaskRuntimePolicy`, which is built with its defaults everywhere.
pub record TaskRuntimePolicy : Type 0 where
  pub lease_seconds : ℕ
  pub heartbeat_seconds : ℕ
  pub poll_seconds : ℕ
  pub sse_heartbeat_seconds : ℕ
  pub max_attempts : ℕ
  pub sse_page_size : ℕ
  pub max_payload_bytes : ℕ
  pub max_narrative_bytes : ℕ
  pub max_evidence_refs : ℕ

abbrev pub runtime_policy : TaskRuntimePolicy
runtime_policy = record {
  lease_seconds = 60;
  heartbeat_seconds = 15;
  poll_seconds = 1;
  sse_heartbeat_seconds = 15;
  max_attempts = 3;
  sse_page_size = 100;
  max_payload_bytes = 1_048_576;
  max_narrative_bytes = 65_536;
  max_evidence_refs = 20;
}
