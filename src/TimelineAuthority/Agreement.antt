-- ===== src/TimelineAuthority/Agreement.antt =====
-- The reader of the database and the policy of timeline_execution/policy.py agree.
use mathlib.Core.Path.{subst}
use night_voyager.Base.{
  Bool-cases, ◌==◌, nat_eq, string_eq, option_eq, length, select, All, list_eq, String, ◌≡◌, refl,
  sym, ap, ◌∙◌, ◌≢◌, ◌⊎◌, inl, inr, Bool, true, false, not, ◌||◌, Option, none, some, List, map,
  arith,
}
use night_voyager.Base.Results.{Result, ok, err}
use night_voyager.Calendar.{Date, date_eq}
use night_voyager.Calendar.Ordinal.{IsDate}
use night_voyager.Planning.Models.{Uuid}
use night_voyager.TimelineExecution.Enums.{
  TimelineExecutionState, timeline_execution_state_eq, timeline_checkpoint_state_eq,
  timeline_risk_state_eq, checkpoint_attestation_kind_eq, checkpoint_status_code_eq,
  checkpoint_attestation_reason_code_eq, checkpoint_verification_reason_code_eq,
}
use night_voyager.TimelineExecution.Models.{
  TimelineExecution, TimelineCheckpoint, timeline_checkpoint_eq, timeline_activity_item_eq,
  TimelineExecutionView,
}
use night_voyager.TimelineExecution.Action.{is_current, derive_current_action}
use night_voyager.TimelineExecution.Owner.{select_all}
use night_voyager.TimelineAuthority.Rows.{
  CheckpointRow, ParticipantRow, Anchor, Timeline, Caller, has_context,
}
use night_voyager.TimelineAuthority.Gate.{is_open_row}
use night_voyager.TimelineAuthority.Lines.{IsAt-select}
use night_voyager.TimelineAuthority.Standing.{IsStanding, IsSound}
use night_voyager.TimelineAuthority.Invariant.{Reach-IsSound}
use night_voyager.TimelineAuthority.Steps.{Reach}
use night_voyager.TimelineAuthority.Read.{
  risk_state_of, shown_with, first_shown, is_contradictory, current_action, Projection, projection,
  projected, visible, read_timeline_execution,
}
use night_voyager.TimelineAuthority.Actions.{
  shown-policy, is_current-open, select-shown, select-verified, Agrees, derive-completed,
  derive-line,
}

-- A view with the parts that are read.
module _ (today : Date) (t : Timeline) (e : TimelineExecution) (v : IsStanding t e)
    (view : TimelineExecutionView) where
  abbrev shown : CheckpointRow → TimelineCheckpoint
  shown = shown_with (risk_state_of today)

  abbrev currents : List TimelineCheckpoint
  currents = map shown (select is_open_row t.checkpoints)

  line-derive :
      view.execution ≡ e
      → view.checkpoints ≡ map shown t.checkpoints
      → view.current_checkpoint ≡ first_shown currents
      → derive_current_action view ≡ ok (current_action e (first_shown currents))
  line-derive same_e same_cs same_current = elim v.line [
    | inl (live, (p, at)) ↦
        let (c, sole, _) = IsAt-select p t.checkpoints at in
        derive-line view (shown c) (λ done. live (ap (λ x. x.state) (sym same_e) ∙ done))
          (ap (select is_current) same_cs
            ∙ select-shown (risk_state_of today) t.checkpoints
            ∙ ap (map shown) sole)
          (same_current ∙ ap (λ cs. first_shown (map shown cs)) sole)
          (is_current-open (risk_state_of today) c ∙ select_all is_open_row t.checkpoints sole)
        ∙ ap (λ x. ok (current_action x view.current_checkpoint)) same_e
        ∙ ap (λ x. ok (current_action e x)) same_current
    | inr (done, all_done) ↦
        let no_current : first_shown currents ≡ none =
          ap (λ cs. first_shown (map shown cs)) (select-verified t.checkpoints all_done) in
        derive-completed view (ap (λ x. x.state) same_e ∙ done) (same_current ∙ no_current)
        ∙ ap (λ x. ok (current_action x none)) same_e
        ∙ ap (λ x. ok (current_action e x)) (sym no_current)
  ]

one-is_contradictory :
    (s : TimelineExecutionState)
    → s ≢ TimelineExecutionState.completed
    → is_contradictory s 1 ≡ false
unfolding is_contradictory
one-is_contradictory s live = ground (arith, live)

IsStanding-is_contradictory :
    (t : Timeline) (e : TimelineExecution)
    → IsStanding t e
    → is_contradictory e.state (length (select is_open_row t.checkpoints)) ≡ false
unfolding is_contradictory
IsStanding-is_contradictory t e v = elim v.line [
  | inl (live, (p, at)) ↦
      let (c, sole, _) = IsAt-select p t.checkpoints at in
      ap (λ cs. is_contradictory e.state (length cs)) sole ∙ one-is_contradictory e.state live
  | inr (done, all_done) ↦
      ap (λ cs. is_contradictory e.state (length cs)) (select-verified t.checkpoints all_done)
      ∙ ap (λ s. is_contradictory s 0) done
]

IsStanding-Agrees :
    (today : Date) (t : Timeline) (e : TimelineExecution)
    → IsStanding t e
    → IsDate today
    → All (λ c. IsDate c.due_date) t.checkpoints
    → Agrees today t.checkpoints (projection today e t.checkpoints)
unfolding projection
IsStanding-Agrees today t e v now dues = record {
  risks = shown-policy today t.checkpoints now dues;
  action = line-derive today t e v;
}

-- What a caller may see of the execution is that execution or nothing.
visible-eq :
    (caller : Caller) (case_id : Uuid) (participants : List ParticipantRow)
    (stored : Option TimelineExecution)
    → (visible caller case_id participants stored ≡ none)
      ⊎ (visible caller case_id participants stored ≡ stored)
unfolding visible
visible-eq caller case_id participants none = inl refl
visible-eq caller case_id participants (some e) = ground arith

projected-eq :
    (today : Date) (cs : List CheckpointRow) (e : TimelineExecution)
    → is_contradictory e.state (length (select is_open_row cs)) ≡ false
    → projected today cs (some e) ≡ ok (some (projection today e cs))
unfolding projected
projected-eq today cs e h = rw h refl

-- The outcome of a read that agrees with the policy.
abbrev pub IsAgreed : Date → List CheckpointRow → Result (Option Projection) → Type 0
IsAgreed today cs (ok none) = Unit
IsAgreed today cs (ok (some r)) = Agrees today cs r
IsAgreed today cs (err code) = code ≢ "NV006"

projected-IsAgreed :
    (caller : Caller) (case_id : Uuid) (today : Date) (t : Timeline)
    → IsSound t
    → IsDate today
    → All (λ c. IsDate c.due_date) t.checkpoints
    → IsAgreed today t.checkpoints
        (projected today t.checkpoints (visible caller case_id t.participants t.execution))
unfolding projected visible
projected-IsAgreed caller case_id today t (inl (never, _, _)) now dues =
    subst
      (λ x.
        IsAgreed today t.checkpoints
          (projected today t.checkpoints (visible caller case_id t.participants x)))
      (sym never) tt
projected-IsAgreed caller case_id today t (inr (e, stored, v)) now dues =
    elim (visible-eq caller case_id t.participants t.execution) [
      | inl hidden ↦
          subst (λ x. IsAgreed today t.checkpoints (projected today t.checkpoints x)) (sym hidden)
            tt
      | inr same ↦
          subst (λ x. IsAgreed today t.checkpoints (projected today t.checkpoints x))
            (sym (same ∙ stored))
            (subst (IsAgreed today t.checkpoints)
              (sym (projected-eq today t.checkpoints e (IsStanding-is_contradictory t e v)))
              (IsStanding-Agrees today t e v now dues))
    ]

other : (code : String) → (code == "NV006") ≡ false → code ≢ "NV006"
other code h same = not_both (ap (λ s. s == "NV006") same ∙ refl) h
  where
    not_both : {b : Bool} → b ≡ true → b ≡ false → ⊥
    not_both k l = ground arith

-- After any calls that succeed, a read never finds the execution contradictory, and what it returns
-- agrees with the policy: each checkpoint has the risk that `derive_risk_state` gives it, and any
-- view of these parts has the action that `derive_current_action` gives.
pub read_timeline_execution-IsAgreed :
    {anchor : Anchor} {participants : List ParticipantRow} {t : Timeline}
    → Reach anchor participants t
    → (caller : Caller) (case_id : Uuid) (today : Date) → IsDate today
    → All (λ c. IsDate c.due_date) t.checkpoints
    → IsAgreed today t.checkpoints (read_timeline_execution caller case_id today t)
unfolding read_timeline_execution
read_timeline_execution-IsAgreed {anchor} {participants} {t} reached caller case_id today now dues =
    elim (Bool-cases (
      not (
        (caller.role == "advisor") || ((caller.role == "student") || (caller.role == "parent"))))) [
          | inl outside ↦ rw outside (λ same. other "NV003" refl same)
          | inr inside ↦ elim (Bool-cases (not (has_context caller))) [
            | inl lost ↦ rw (inside, lost) (λ same. other "NV007" refl same)
            | inr kept ↦
                rw (inside, kept)
                  (projected-IsAgreed caller case_id today t (Reach-IsSound reached) now dues)
          ]
        ]
