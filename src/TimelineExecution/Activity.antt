-- ===== src/TimelineExecution/Activity.antt =====
-- What a view that passes its checks shows.
use night_voyager.TimelineExecution.Enums.{
  timeline_execution_state_eq, timeline_checkpoint_state_eq, timeline_risk_state_eq,
  checkpoint_attestation_kind_eq, checkpoint_status_code_eq, checkpoint_attestation_reason_code_eq,
  checkpoint_verification_reason_code_eq,
}
use night_voyager.Base.{
  nat_eq, string_eq, option_eq, length, All, list_eq, ◌≤◌, ◌<◌, ◌≡◌, ◌↔◌, Bool, true, false, Option,
  none, some, List, [], ◌∷◌,
}
use night_voyager.Base.Int.{ℤ, pos, negsuc}
use night_voyager.TimelineExecution.Models.{
  TimelineExecution, timeline_checkpoint_eq, TimelineReassessment, TimelineActivityItem,
  timeline_activity_item_eq,
}
use night_voyager.TimelineExecution.View.{is_before}

-- No item is before one that follows it.
abbrev pub Descending : List TimelineActivityItem → Type 0
Descending [] = Unit
Descending (a ∷ rest) = All (λ b. is_before a b ≡ false) rest × Descending rest

-- The reassessment that a view shows, if any, is one of its execution's lineage.
abbrev pub IsOfLineage : TimelineExecution → Option TimelineReassessment → Type 0
IsOfLineage e none = Unit
IsOfLineage e (some r) =
    (r.predecessor_execution_id ≡ e.execution_id)
    × (r.predecessor_case_id ≡ e.case_id)
    × (r.predecessor_case_revision ≡ e.case_revision)
    × (r.predecessor_decision_id ≡ e.decision_id)
    × (r.predecessor_timeline_plan_id ≡ e.timeline_plan_id)

-- A total that covers the shown items, and says whether there are more.
abbrev pub Covers : ℤ → List TimelineActivityItem → Bool → Type 0
Covers (negsuc _) shown truncated = ⊥
Covers (pos total) shown truncated =
    (length shown ≤ total) × (length shown ≤ 64) × ((truncated ≡ true) ↔ (length shown < total))
