-- ===== src/TimelineExecution/Risk.antt =====
-- The risk of a checkpoint in terms of the calendar.
use night_voyager.TimelineExecution.Enums.{
  TimelineCheckpointState, timeline_checkpoint_state_beq_iff, due_soon, overdue,
}
use night_voyager.Base.{◌+◌, ◌≤◌, ◌≡◌, ◌≢◌, ◌↔◌, true, false, arith}
use night_voyager.Calendar.{Date, date_ltb, ordinal}
use night_voyager.Calendar.Ordinal.{IsDate, ordinal_iff}
use night_voyager.TimelineExecution.Policy.{derive_risk_state}

-- An unverified checkpoint is overdue exactly if its due date is before the observed date, and due
-- soon exactly if it is not overdue and at most fourteen days are left; a verified one is on track.
pub derive_risk_state_lem :
    (state : TimelineCheckpointState) (due observed : Date)
    → IsDate due
    → IsDate observed
    → ((derive_risk_state state due observed ≡ overdue)
        ↔ ((state ≢ TimelineCheckpointState.verified) × (date_ltb due observed ≡ true)))
      × ((derive_risk_state state due observed ≡ due_soon) ↔ (
          (state ≢ TimelineCheckpointState.verified)
          × (date_ltb due observed ≡ false)
          × (ordinal due ≤ ordinal observed + 14)))
unfolding derive_risk_state
derive_risk_state_lem state due observed hd ho = ground (
  arith,
  ordinal_iff due observed hd ho,
  timeline_checkpoint_state_beq_iff state TimelineCheckpointState.verified,
)
