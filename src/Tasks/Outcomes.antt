-- ===== src/Tasks/Outcomes.antt =====
-- How failures are classified, and when a fresh task may follow a terminal one.
use mathlib.Core.Path.{subst}
use night_voyager.Base.{
  ◌==◌, nat_eq, string_eq, option_eq, list_eq, ℕ, ◌≤◌, ◌<◌, ◌≡◌, refl, ◌⊎◌, Bool, true, false, not,
  ◌&&◌, ◌||◌, none, some, arith,
}
use night_voyager.Tasks.Models.{
  AgentTaskState, agent_task_state_eq, agent_task_state_value, AdapterFailureCode,
  adapter_failure_code_eq, adapter_failure_code_value, planning_operation_eq, adapter_id_eq,
  adapter_version_eq,
}
use night_voyager.Tasks.Policy.{
  terminal_recovery_allowed, RetryDecision, terminal_state_of, classify_adapter_outcome,
}

-- The failures that may be gone at the next attempt.
abbrev pub is_transient : AdapterFailureCode → Bool
is_transient AdapterFailureCode.transient_unavailable = true
is_transient AdapterFailureCode.transport_interrupted = true
is_transient AdapterFailureCode.lease_expired = true
is_transient _ = false

-- The state in which a failure ends a task.
abbrev pub ending : AdapterFailureCode → AgentTaskState
ending AdapterFailureCode.deadline_exceeded = AgentTaskState.timed_out
ending AdapterFailureCode.required_evidence_gap = AgentTaskState.blocked
ending _ = AgentTaskState.failed

abbrev Classified : AdapterFailureCode → ℕ → RetryDecision → Type 0
Classified code n d =
    ((d.retryable ≡ true) × (d.terminal_state ≡ none) × (is_transient code ≡ true) × (n < 3))
    ⊎ ((d.retryable ≡ false)
        × (d.terminal_state ≡ some (ending code))
        × ((is_transient code ≡ false) ⊎ (3 ≤ n)))

-- A failure is retried or ends the task: it is retried exactly if it is transient and fewer than
-- three attempts were made, and else it ends the task in the state of its code.
pub classify_adapter_outcome-Classified :
    (code : AdapterFailureCode) (n : ℕ) → Classified code n (classify_adapter_outcome code n)
unfolding classify_adapter_outcome
classify_adapter_outcome-Classified code n = ground arith

terminal_state-eq :
    (code : AdapterFailureCode) (n : ℕ) {s : AgentTaskState}
    → (classify_adapter_outcome code n).terminal_state ≡ some s
    → terminal_state_of code ≡ s
unfolding classify_adapter_outcome
terminal_state-eq code n h = ground arith

-- Recovery, once the terminal state is the one that the code leads to.
recovery_of_code :
    (code : AdapterFailureCode) (has_result : Bool)
    → terminal_recovery_allowed
        (agent_task_state_value (terminal_state_of code))
        (some (adapter_failure_code_value code))
        has_result
      ≡ (not has_result && (is_transient code || (code == AdapterFailureCode.deadline_exceeded)))
unfolding terminal_recovery_allowed
recovery_of_code AdapterFailureCode.transient_unavailable true = refl
recovery_of_code AdapterFailureCode.transient_unavailable false = refl
recovery_of_code AdapterFailureCode.transport_interrupted true = refl
recovery_of_code AdapterFailureCode.transport_interrupted false = refl
recovery_of_code AdapterFailureCode.lease_expired true = refl
recovery_of_code AdapterFailureCode.lease_expired false = refl
recovery_of_code AdapterFailureCode.deadline_exceeded true = refl
recovery_of_code AdapterFailureCode.deadline_exceeded false = refl
recovery_of_code AdapterFailureCode.required_evidence_gap true = refl
recovery_of_code AdapterFailureCode.required_evidence_gap false = refl
recovery_of_code AdapterFailureCode.invalid_schema true = refl
recovery_of_code AdapterFailureCode.invalid_schema false = refl
recovery_of_code AdapterFailureCode.pin_mismatch true = refl
recovery_of_code AdapterFailureCode.pin_mismatch false = refl
recovery_of_code AdapterFailureCode.fallback_authority true = refl
recovery_of_code AdapterFailureCode.fallback_authority false = refl
recovery_of_code AdapterFailureCode.oversize true = refl
recovery_of_code AdapterFailureCode.oversize false = refl
recovery_of_code AdapterFailureCode.policy_rejected true = refl
recovery_of_code AdapterFailureCode.policy_rejected false = refl
recovery_of_code AdapterFailureCode.unknown true = refl
recovery_of_code AdapterFailureCode.unknown false = refl

-- A task that ended by a failure of its adapter may be recovered by a fresh task exactly if the
-- failure was transient or the deadline passed, and it left no result.
pub terminal_recovery_allowed_lem :
    (code : AdapterFailureCode) (n : ℕ) (has_result : Bool) {s : AgentTaskState}
    → (classify_adapter_outcome code n).terminal_state ≡ some s
    → terminal_recovery_allowed
        (agent_task_state_value s)
        (some (adapter_failure_code_value code))
        has_result
      ≡ (not has_result && (is_transient code || (code == AdapterFailureCode.deadline_exceeded)))
terminal_recovery_allowed_lem code n has_result h =
    subst
      (λ s.
        terminal_recovery_allowed (agent_task_state_value s)
          (some (adapter_failure_code_value code)) has_result
        ≡ (not has_result && (is_transient code || (code == AdapterFailureCode.deadline_exceeded))))
      (terminal_state-eq code n h) (recovery_of_code code has_result)
