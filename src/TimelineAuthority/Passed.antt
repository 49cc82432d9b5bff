-- ===== src/TimelineAuthority/Passed.antt =====
-- What a call that succeeds has passed.
use mathlib.Core.Path.{subst}
use night_voyager.Base.{
  ◌==◌, ◌!=◌, nat_eq, string_eq, eq_of_bne, option_eq, select, list_eq, String, ◌≡◌, refl, ap, ◌⊎◌,
  inl, inr, not, ◌||◌, Option, none, some, List, [], ◌∷◌, arith,
}
use night_voyager.Base.Results.{Result, ok, err, ok-injective, if-err}
use night_voyager.Planning.Models.{Uuid}
use night_voyager.TimelineExecution.Enums.{
  TimelineExecutionState, timeline_execution_state_eq, timeline_checkpoint_state_eq,
  timeline_risk_state_eq, checkpoint_attestation_kind_eq, checkpoint_status_code_eq,
  checkpoint_attestation_reason_code_eq, checkpoint_verification_reason_code_eq,
}
use night_voyager.TimelineExecution.Models.{
  TimelineExecution, timeline_checkpoint_eq, timeline_activity_item_eq,
}
use night_voyager.TimelineAuthority.Rows.{
  CheckpointRow, ReceiptRow, IdempotencyRow, Timeline, Caller, Request, Target, has_context,
}
use night_voyager.TimelineAuthority.Gate.{
  Outcome, find_execution, repeated, is_open_row, sole_checkpoint, current_checkpoint, gated,
  unless_repeated, on_execution, on_current,
}

-- The checkpoint is the current one of the active execution, and the versions are those expected.
pub record IsGated (t : Timeline) (target : Target) (e : TimelineExecution) (c : CheckpointRow)
    : Type 0 where
  pub stored : t.execution ≡ some e
  pub is_active : e.state ≡ TimelineExecutionState.active
  pub sole : select is_open_row t.checkpoints ≡ c ∷ []
  pub same : c.id ≡ target.checkpoint_id
  pub execution_version : e.row_version ≡ target.execution_version
  pub checkpoint_version : c.row_version ≡ target.checkpoint_version

find_execution-some :
    (id : Uuid) (stored : Option TimelineExecution) {e : TimelineExecution}
    → find_execution id stored ≡ some e
    → stored ≡ some e
unfolding find_execution
find_execution-some id none h = h
find_execution-some id (some e) h = ground (arith, h)

sole_checkpoint-ok :
    (target : Target) (e : TimelineExecution) (cs : List CheckpointRow) {c : CheckpointRow}
    → sole_checkpoint target e cs ≡ ok c
    → (cs ≡ c ∷ [])
      × (c.id ≡ target.checkpoint_id)
      × (e.row_version ≡ target.execution_version)
      × (c.row_version ≡ target.checkpoint_version)
unfolding sole_checkpoint
sole_checkpoint-ok target e [] h = cc
sole_checkpoint-ok target e (d ∷ []) {c} h =
    let (id, rest) = if-err (d.id != target.checkpoint_id) _ _ h in
    let (version, last) = if-err (e.row_version != target.execution_version) _ _ rest in
    let (checkpoint, same) = if-err (d.row_version != target.checkpoint_version) _ _ last in
    subst
      (λ x.
        ((d ∷ []) ≡ x ∷ [])
        × (x.id ≡ target.checkpoint_id)
        × (e.row_version ≡ target.execution_version)
        × (x.row_version ≡ target.checkpoint_version))
      (ok-injective same) (refl, eq_of_bne id, eq_of_bne version, eq_of_bne checkpoint)
sole_checkpoint-ok target e (d ∷ f ∷ cs) h = cc

current_checkpoint-ok :
    (t : Timeline) (target : Target) (e : TimelineExecution) {c : CheckpointRow}
    → t.execution ≡ some e
    → current_checkpoint target e t.checkpoints ≡ ok c
    → IsGated t target e c
unfolding current_checkpoint
current_checkpoint-ok t target e stored h =
    let (_, rest) = if-err (e.case_id != target.case_id) _ _ h in
    let (_, last) = if-err (e.state == TimelineExecutionState.completed) _ _ rest in
    let (is_active, found) = if-err (e.state != TimelineExecutionState.active) _ _ last in
    let (sole, same, version, checkpoint) = sole_checkpoint-ok target e _ found in
    record {
      stored = stored;
      is_active = eq_of_bne is_active;
      sole = sole;
      same = same;
      execution_version = version;
      checkpoint_version = checkpoint;
    }

pub gated-ok :
    (act : TimelineExecution → CheckpointRow → Result Outcome) (e : TimelineExecution)
    (found : Result CheckpointRow) {out : Outcome}
    → gated act e found ≡ ok out
    → (c : CheckpointRow) × (found ≡ ok c) × (act e c ≡ ok out)
unfolding gated
gated-ok act e (ok c) h = (c, refl, h)
gated-ok act e (err code) h = cc

module _ (operation kind : String) (caller : Caller) (request : Request) (target : Target)
    (t : Timeline) (act : TimelineExecution → CheckpointRow → Result Outcome) (out : Outcome) where
  -- An earlier answer, or the writes on the current checkpoint.
  abbrev Passes : Type 0
  Passes =
      ((prior : IdempotencyRow) × (repeated kind request prior t ≡ ok out))
      ⊎ ((e : TimelineExecution) × (c : CheckpointRow) × IsGated t target e c × (act e c ≡ ok out))

  unless_repeated-passes :
      (e : TimelineExecution) (prior : Option IdempotencyRow)
      → t.execution ≡ some e
      → unless_repeated kind request target t act e prior ≡ ok out
      → Passes
  unfolding unless_repeated
  unless_repeated-passes e (some prior) stored h = inl (prior, h)
  unless_repeated-passes e none stored h =
      let (c, found, done) = gated-ok act e (current_checkpoint target e t.checkpoints) h in
      inr (e, c, current_checkpoint-ok t target e stored found, done)

  on_execution-passes :
      (found : Option TimelineExecution)
      → find_execution target.execution_id t.execution ≡ found
      → on_execution operation kind caller request target t act found ≡ ok out
      → Passes
  unfolding on_execution
  on_execution-passes none at h = cc
  on_execution-passes (some e) at h =
      unless_repeated-passes e _ (find_execution-some target.execution_id t.execution at) h

  pub on_current-passes : on_current operation kind caller request target t act ≡ ok out → Passes
  unfolding on_current
  on_current-passes h =
      let (_, rest) = if-err (not (has_context caller)) _ _ h in on_execution-passes _ refl rest

-- A repeated request changes nothing.
pub repeated-same :
    (kind : String) (request : Request) (prior : IdempotencyRow) (t : Timeline) {u : Timeline}
    {receipt : Option ReceiptRow}
    → repeated kind request prior t ≡ ok (u, receipt)
    → t ≡ u
unfolding repeated
repeated-same kind request prior t h =
    let (_, e) =
      if-err {T = Outcome}
        ((prior.request_sha256 != request.request_sha256) || (prior.response_kind != kind)) _ _ h in
    ap (λ p. p.0) (ok-injective {T = Outcome} e)
