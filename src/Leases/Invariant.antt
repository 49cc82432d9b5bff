-- ===== src/Leases/Invariant.antt =====
-- What holds of every task at every moment.
use night_voyager.Base.{ℕ, refl}
use night_voyager.Leases.Rows.{TaskRow, Task, is_leased, append_agent_task_event}
use night_voyager.Leases.Steps.{created, Steps, stay, later, Effect}
use night_voyager.Leases.Effects.{Step-Effect}
use night_voyager.Leases.Places.{IsPlaced, created-IsPlaced, Effect-IsPlaced}
use night_voyager.Leases.Ledger.{IsLedger}
use night_voyager.Leases.Accounts.{Effect-IsLedger}
use night_voyager.Leases.Journal.{IsDense, Appends-IsDense, Effect-Appends}

pub record IsSound (t : Task) : Type 0 where
  pub placed : IsPlaced t
  pub ledger : IsLedger t
  pub dense : IsDense 0 t.events

created-IsSound : (pins : TaskRow) (now : ℕ) → IsSound (created pins now)
unfolding created append_agent_task_event is_leased
created-IsSound pins now = record {
  placed = created-IsPlaced pins now;
  ledger = record { numbered = refl; current = refl };
  dense = (refl, tt);
}

pub Effect-IsSound : {t : Task} {now : ℕ} {u : Task} → Effect t now u → IsSound t → IsSound u
Effect-IsSound change v = record {
  placed = Effect-IsPlaced change v.placed;
  ledger = Effect-IsLedger change v.placed v.ledger;
  dense = Appends-IsDense (Effect-Appends change) v.dense;
}

pub Steps-IsSound : {t u : Task} → Steps t u → IsSound t → IsSound u
Steps-IsSound stay v = v
Steps-IsSound (later steps step) v = Effect-IsSound (Step-Effect step) (Steps-IsSound steps v)

-- A task that was created is sound after any calls that succeed on it, in any order: it waits
-- unowned with a dispatch row, is held by one owner until a moment at which its dispatch row comes
-- up, or is over without one; its lease generation is the number of its attempts, at most three;
-- its executions are numbered by them, and none but the last is open; its events are numbered 1,
-- 2, 3 and on.
pub created-Steps-IsSound :
    (pins : TaskRow) (now : ℕ) {t : Task} → Steps (created pins now) t → IsSound t
created-Steps-IsSound pins now steps = Steps-IsSound steps (created-IsSound pins now)
