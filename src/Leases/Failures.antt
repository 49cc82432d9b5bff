-- ===== src/Leases/Failures.antt =====
-- What the report of an adapter's failure does to the task: `classify_adapter_outcome` of
-- tasks/policy.py and, with what it gives, `fail_agent_task` of migration 0004, as run_once of
-- tasks/worker.py composes them.
use mathlib.Core.Path.{ap₂}
use night_voyager.Leases.Places.{IsPlaced, IsHeld-place}
use night_voyager.Base.Equality.{HasEq, ◌==◌, ◌!=◌, nat_eq, string_eq, beq_refl, option_eq}
use night_voyager.Base.{
  list_eq, ℕ, ◌≤◌, ◌<◌, String, ◌≡◌, refl, ◌∙◌, ◌⊎◌, inl, inr, Bool, true, false, none, some, arith,
}
use night_voyager.Base.Results.{Result, ok}
use night_voyager.Tasks.Models.{
  AgentTaskState, agent_task_state_eq, AdapterFailureCode, adapter_failure_code_eq,
  adapter_failure_code_value, planning_operation_eq, adapter_id_eq, adapter_version_eq,
}
use night_voyager.Tasks.Policy.{classify_adapter_outcome}
use night_voyager.Tasks.Outcomes.{is_transient, ending, classify_adapter_outcome-Classified}
use night_voyager.Leases.Rows.{Task, is_leased}
use night_voyager.Leases.Calls.{
  has_lost, left, reschedule, terminal_state_named, requeued, ended_by, fail_agent_task,
}
use night_voyager.Leases.Steps.{IsHolder}

-- Back in the queue and due at once, or over in the state and with the code of the failure.
abbrev pub IsSettled : AdapterFailureCode → ℕ → Task → Task → Type 0
IsSettled code now t u =
    let decided = (classify_adapter_outcome code t.row.attempt_count).terminal_state in
    ((is_transient code ≡ true)
      × (t.row.attempt_count < 3)
      × (u.row.state ≡ AgentTaskState.queued)
      × (decided ≡ none)
      × (u.row.terminal_code ≡ none)
      × (u.dispatch ≡ some now))
    ⊎ (((is_transient code ≡ false) ⊎ (3 ≤ t.row.attempt_count))
        × (u.row.state ≡ ending code)
        × (decided ≡ some (ending code))
        × (u.row.terminal_code ≡ some (adapter_failure_code_value code))
        × (u.dispatch ≡ none))

-- The call that the worker makes for the failure.
abbrev pub report_failure : AdapterFailureCode → String → ℕ → ℕ → Task → Result Task
report_failure code worker generation now t =
    let decision = classify_adapter_outcome code t.row.attempt_count in
    fail_agent_task worker generation decision.public_code decision.retryable
      (code == AdapterFailureCode.fallback_authority) now t

-- The database ends a task in the state that the policy names.
terminal_state_named_lem :
    (code : AdapterFailureCode)
    → terminal_state_named (adapter_failure_code_value code) ≡ ending code
unfolding terminal_state_named
terminal_state_named_lem AdapterFailureCode.transient_unavailable = refl
terminal_state_named_lem AdapterFailureCode.transport_interrupted = refl
terminal_state_named_lem AdapterFailureCode.lease_expired = refl
terminal_state_named_lem AdapterFailureCode.deadline_exceeded = refl
terminal_state_named_lem AdapterFailureCode.required_evidence_gap = refl
terminal_state_named_lem AdapterFailureCode.invalid_schema = refl
terminal_state_named_lem AdapterFailureCode.pin_mismatch = refl
terminal_state_named_lem AdapterFailureCode.fallback_authority = refl
terminal_state_named_lem AdapterFailureCode.oversize = refl
terminal_state_named_lem AdapterFailureCode.policy_rejected = refl
terminal_state_named_lem AdapterFailureCode.unknown = refl

-- What equals the value it is compared with does not differ from it.
bne_of_eq : {A : Type 0} ⦃e : HasEq A⦄ {a b : A} → a ≡ b → (a != b) ≡ false
bne_of_eq {A} {a} {b} h = rw (h, beq_refl b) refl

IsHolder-has_lost :
    (t : Task) (worker : String) (generation now : ℕ)
    → IsHolder t worker generation now
    → has_lost is_leased t.row worker generation now ≡ false
unfolding has_lost
IsHolder-has_lost t worker generation now holder =
    ground (arith, holder.leased, bne_of_eq holder.owner, bne_of_eq holder.current, holder.fresh)

-- The flag agrees with the code, so the database accepts it.
flag_agrees :
    (code : AdapterFailureCode)
    → (adapter_failure_code_value code == "fallback_authority")
      ≡ (code == AdapterFailureCode.fallback_authority)
flag_agrees AdapterFailureCode.transient_unavailable = refl
flag_agrees AdapterFailureCode.transport_interrupted = refl
flag_agrees AdapterFailureCode.lease_expired = refl
flag_agrees AdapterFailureCode.deadline_exceeded = refl
flag_agrees AdapterFailureCode.required_evidence_gap = refl
flag_agrees AdapterFailureCode.invalid_schema = refl
flag_agrees AdapterFailureCode.pin_mismatch = refl
flag_agrees AdapterFailureCode.fallback_authority = refl
flag_agrees AdapterFailureCode.oversize = refl
flag_agrees AdapterFailureCode.policy_rejected = refl
flag_agrees AdapterFailureCode.unknown = refl

public_code_lem :
    (code : AdapterFailureCode) (n : ℕ)
    → (classify_adapter_outcome code n).public_code ≡ adapter_failure_code_value code
unfolding classify_adapter_outcome
public_code_lem code n = ground arith

-- A report of the holder passes the guards of the call if its flag agrees with its code.
module _ (code : String) (worker : String) (generation now : ℕ) (t : Task)
    (holder : IsHolder t worker generation now) where
  fail_agent_task-again :
      (flag : Bool)
      → (code == "fallback_authority") ≡ flag
      → t.row.attempt_count < 3
      → fail_agent_task worker generation code true flag now t
        ≡ ok (requeued generation code flag now t)
  unfolding fail_agent_task
  fail_agent_task-again flag agrees early =
      let kept = IsHolder-has_lost t worker generation now holder in
      ground (arith, kept, agrees, early)

  fail_agent_task-over :
      (flag : Bool)
      → (code == "fallback_authority") ≡ flag
      → fail_agent_task worker generation code false flag now t
        ≡ ok (ended_by generation code flag now t)
  unfolding fail_agent_task
  fail_agent_task-over flag agrees =
      let kept = IsHolder-has_lost t worker generation now holder in ground (arith, kept, agrees)

-- What the worker reports is what the policy decided.
report_failure-eq :
    (code : AdapterFailureCode) (worker : String) (generation now : ℕ) (t : Task) {again : Bool}
    → (classify_adapter_outcome code t.row.attempt_count).retryable ≡ again
    → report_failure code worker generation now t
      ≡ fail_agent_task worker generation
          (adapter_failure_code_value code)
          again
          (code == AdapterFailureCode.fallback_authority)
          now
          t
report_failure-eq code worker generation now t h =
    ap₂
      (λ c r.
        fail_agent_task worker generation c r (code == AdapterFailureCode.fallback_authority) now t)
      (public_code_lem code t.row.attempt_count) h

-- A failure that the holder of a task reports is accepted: if it is one of the three transient
-- ones and fewer than three attempts were made, the task is back in the queue, due at once; else
-- it is over, timed out by a passed deadline, blocked by a gap in the required evidence and failed
-- by any other code, as the policy decided, with the code of the failure and no dispatch row.
pub report_failure-IsSettled :
    (code : AdapterFailureCode) (worker : String) (generation now : ℕ) (t : Task)
    → IsPlaced t
    → IsHolder t worker generation now
    → (u : Task) × (report_failure code worker generation now t ≡ ok u) × IsSettled code now t u
unfolding requeued ended_by left reschedule
report_failure-IsSettled code worker generation now t p holder =
    elim (classify_adapter_outcome-Classified code t.row.attempt_count) [
      | inl (again, undecided, transient, early) ↦
          let (_, _, (expiry, _, at), _) = IsHeld-place t p holder.leased in
          (
            requeued generation (adapter_failure_code_value code) _ now t,
            report_failure-eq code worker generation now t again
                ∙ fail_agent_task-again _ worker generation now t holder _ (flag_agrees code) early,
            inl (transient, early, refl, undecided, refl, ground (arith, at)),
          )
      | inr (never, decided, why) ↦ (
        ended_by generation (adapter_failure_code_value code) _ now t,
        report_failure-eq code worker generation now t never
            ∙ fail_agent_task-over _ worker generation now t holder _ (flag_agrees code),
        inr (why, terminal_state_named_lem code, decided, refl, refl),
      )
    ]
