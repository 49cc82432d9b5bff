-- ===== src/Tasks/Policy.antt =====
-- tasks/policy.py, without the payload check: how a task's outcome is classified and shown.
use night_voyager.Base.{
  ltb, if◌then◌else◌, ◌==◌, ◌!=◌, nat_eq, string_eq, option_eq, select, contains, list_eq, ℕ,
  String, Bool, true, false, not, ◌&&◌, ◌||◌, Option, none, some, List, [], ◌∷◌,
}
use night_voyager.Tasks.Models.{
  AgentTaskState, agent_task_state_eq, TaskViewStatus, AdapterFailureCode, adapter_failure_code_eq,
  adapter_failure_code_value, planning_operation_eq, adapter_id_eq, adapter_version_eq,
  runtime_policy,
}

-- `RETRYABLE_FAILURES`
abbrev pub retryable_failures : List AdapterFailureCode
retryable_failures =
    AdapterFailureCode.transient_unavailable ∷ AdapterFailureCode.transport_interrupted
    ∷ AdapterFailureCode.lease_expired ∷ []

-- `TERMINAL_RECOVERY_CODES`
abbrev pub terminal_recovery_codes : List String
terminal_recovery_codes =
    "transient_unavailable" ∷ "transport_interrupted" ∷ "lease_expired" ∷ "deadline_exceeded" ∷ []

-- `code in codes`, where no code is in no set of texts.
abbrev code_in : Option String → List String → Bool
code_in none codes = false
code_in (some c) codes = contains c codes

unfoldable pub terminal_recovery_allowed : String → Option String → Bool → Bool
terminal_recovery_allowed state code has_result =
    not has_result
    && (((state == "failed")
          && code_in code (select (λ c. c != "deadline_exceeded") terminal_recovery_codes))
        || ((state == "timed_out") && (code == some "deadline_exceeded")))

pub record RetryDecision : Type 0 where
  pub retryable : Bool
  pub terminal_state : Option AgentTaskState
  pub public_code : String

-- The dict `mapping`.
abbrev view_of : AgentTaskState → TaskViewStatus
view_of AgentTaskState.queued = TaskViewStatus.preparing
view_of AgentTaskState.leased = TaskViewStatus.preparing
view_of AgentTaskState.running = TaskViewStatus.preparing
view_of AgentTaskState.waiting_review = TaskViewStatus.needs_advisor_review
view_of AgentTaskState.succeeded = TaskViewStatus.ready
view_of AgentTaskState.blocked = TaskViewStatus.needs_evidence
view_of AgentTaskState.timed_out = TaskViewStatus.timed_out
view_of AgentTaskState.failed = TaskViewStatus.failed
view_of AgentTaskState.cancelled = TaskViewStatus.cancelled

unfoldable pub project_task_status : AgentTaskState → Bool → TaskViewStatus
project_task_status state result_is_current =
    if not result_is_current
      && contains state (AgentTaskState.waiting_review ∷ AgentTaskState.succeeded ∷ [])
    then TaskViewStatus.outdated
    else view_of state

abbrev pub terminal_state_of : AdapterFailureCode → AgentTaskState
terminal_state_of code =
    if code == AdapterFailureCode.deadline_exceeded
    then AgentTaskState.timed_out
    else if code == AdapterFailureCode.required_evidence_gap
    then AgentTaskState.blocked
    else AgentTaskState.failed

unfoldable pub classify_adapter_outcome : AdapterFailureCode → ℕ → RetryDecision
classify_adapter_outcome code attempt_no =
    if contains code retryable_failures && ltb attempt_no runtime_policy.max_attempts
    then record {
      retryable = true;
      terminal_state = none;
      public_code = adapter_failure_code_value code;
    }
    else record {
      retryable = false;
      terminal_state = some (terminal_state_of code);
      public_code = adapter_failure_code_value code;
    }
