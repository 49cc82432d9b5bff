-- ===== src/Leases/Status.antt =====
-- The status of an execution, in migrations/versions/0004_agent_tasks_executions_events.py.
use night_voyager.Base.{HasEq, ◌≡◌, ◌↔◌, Bool, true, false, arith}

-- The values of `agent_executions.status`.
pub data ExecutionStatus : Type 0 where
  leased running succeeded retry_scheduled blocked timed_out failed cancelled discarded :
      ExecutionStatus

abbrev pub execution_status_beq : ExecutionStatus → ExecutionStatus → Bool
execution_status_beq ExecutionStatus.leased ExecutionStatus.leased = true
execution_status_beq ExecutionStatus.running ExecutionStatus.running = true
execution_status_beq ExecutionStatus.succeeded ExecutionStatus.succeeded = true
execution_status_beq ExecutionStatus.retry_scheduled ExecutionStatus.retry_scheduled = true
execution_status_beq ExecutionStatus.blocked ExecutionStatus.blocked = true
execution_status_beq ExecutionStatus.timed_out ExecutionStatus.timed_out = true
execution_status_beq ExecutionStatus.failed ExecutionStatus.failed = true
execution_status_beq ExecutionStatus.cancelled ExecutionStatus.cancelled = true
execution_status_beq ExecutionStatus.discarded ExecutionStatus.discarded = true
execution_status_beq _ _ = false

pub execution_status_beq_iff : (a b : ExecutionStatus) → (execution_status_beq a b ≡ true) ↔ (a ≡ b)
execution_status_beq_iff a b = ground arith

instance abbrev pub execution_status_eq : HasEq ExecutionStatus
execution_status_eq = record { eqb = execution_status_beq; eqb_iff = execution_status_beq_iff }
