-- ===== src/TimelineExecution/View.antt =====
-- The checks of `TimelineExecutionViewV1.bounded_activity` in timeline_execution/models.py.
use night_voyager.TimelineExecution.Enums.{
  timeline_execution_state_eq, timeline_checkpoint_state_eq, timeline_risk_state_eq,
  checkpoint_attestation_kind_eq, checkpoint_status_code_eq, checkpoint_attestation_reason_code_eq,
  checkpoint_verification_reason_code_eq,
}
use night_voyager.Base.{
  ltb, if◌then◌else◌, ◌==◌, ◌!=◌, nat_eq, string_eq, option_eq, length, list_eq, ℕ, Bool, true,
  false, not, ◌&&◌, ◌||◌, Option, none, some, List, [], ◌∷◌,
}
use night_voyager.Base.Results.{Result, ok, err}
use night_voyager.Base.Int.{ℤ, pos, negsuc}
use night_voyager.TimelineExecution.Models.{
  TimelineExecution, timeline_checkpoint_eq, TimelineReassessment, TimelineActivityItem,
  timeline_activity_item_eq, TimelineExecutionView,
}

abbrev pub lineage_differs : TimelineExecution → TimelineReassessment → Bool
lineage_differs e r =
    (r.execution_id != e.execution_id)
    || ((r.predecessor_execution_id != e.execution_id)
        || ((r.predecessor_checkpoint_id != r.checkpoint_id)
            || ((r.predecessor_case_id != e.case_id)
                || ((r.predecessor_case_revision != e.case_revision)
                    || ((r.predecessor_decision_id != e.decision_id)
                        || ((r.predecessor_decision_receipt_id != e.decision_receipt_id)
                            || (r.predecessor_timeline_plan_id != e.timeline_plan_id)))))))

-- Whether the key `(created_at, durable_id.int)` of one item is below that of another.
abbrev pub is_before : TimelineActivityItem → TimelineActivityItem → Bool
is_before a b =
    ltb a.created_at b.created_at
    || ((a.created_at == b.created_at) && ltb a.durable_id b.durable_id)

-- `sorted(..., reverse=True)`, which keeps items of one key in their order.
abbrev pub insert_descending :
    TimelineActivityItem → List TimelineActivityItem → List TimelineActivityItem
insert_descending a [] = a ∷ []
insert_descending a (x ∷ xs) =
    let rest = insert_descending a xs in if is_before a x then x ∷ rest else a ∷ x ∷ xs

abbrev pub sorted_descending : List TimelineActivityItem → List TimelineActivityItem
sorted_descending [] = []
sorted_descending (x ∷ xs) = insert_descending x (sorted_descending xs)

-- `total < 0 or total < n`, and `total > n`
abbrev pub is_below : ℤ → ℕ → Bool
is_below (pos total) n = ltb total n
is_below (negsuc _) n = true

abbrev pub is_above : ℤ → ℕ → Bool
is_above (pos total) n = ltb n total
is_above (negsuc _) n = false

abbrev pub bool_differs : Bool → Bool → Bool
bool_differs a b = (a && not b) || (not a && b)

abbrev pub reassessment_differs : TimelineExecution → Option TimelineReassessment → Bool
reassessment_differs e none = false
reassessment_differs e (some r) = lineage_differs e r

unfoldable pub bounded_activity : TimelineExecutionView → Result TimelineExecutionView
bounded_activity view =
    if reassessment_differs view.execution view.reassessment
    then err "reassessment predecessor must match execution lineage"
    else if is_below view.activity_total (length view.activity)
    then err "activity_total must cover the returned activity"
    else if ltb 64 (length view.activity)
    then err "activity is limited to 64 items"
    else if bool_differs view.activity_truncated
        (is_above view.activity_total (length view.activity))
    then err "activity_truncated must reflect the exact total"
    else if view.activity != sorted_descending view.activity
    then err "activity must use stable descending order"
    else ok view
