-- ===== src/Leases/Effects.antt =====
-- Each call on a task that succeeds, reduced to its effect.
use mathlib.Core.Path.{subst}
use night_voyager.Base.{
  ltb, leb, Bool-cases, or_false, and_true, ◌==◌, ◌!=◌, nat_eq, string_eq, eq_of_beq, eq_of_bne,
  option_eq, list_eq, ℕ, String, ◌≡◌, refl, ap, ◌⊎◌, inl, inr, Bool, true, false, not, ◌&&◌, ◌||◌,
  Option, none, some, arith,
}
use night_voyager.Base.Results.{Result, ok, err, ok-injective, if-err, if-ok, if-either}
use night_voyager.Planning.Models.{Uuid}
use night_voyager.Skills.{skill_key_eq, skill_binding_kind_eq}
use night_voyager.Tasks.Models.{
  AgentTaskState, agent_task_state_eq, adapter_failure_code_eq, planning_operation_eq,
  adapter_id_eq, adapter_version_eq,
}
use night_voyager.Leases.Status.{execution_status_eq}
use night_voyager.Leases.Rows.{TaskRow, Task, is_leased, is_closed, has_lapsed, is_pending}
use night_voyager.Leases.Calls.{
  is_sha256, has_lost, is_unstarted, start_agent_task, holds_lease, heartbeat_agent_task,
  fail_agent_task, cancel_task,
}
use night_voyager.Leases.Claim.{SkillTables, is_pinned, claim_leased, claim_task}
use night_voyager.Leases.Finalize.{
  PlanningTables, FinalResult, is_result_state, finalized, is_replay, replayed, stored,
  finalize_agent_task_result,
}
use night_voyager.Leases.Steps.{
  Step, claims, starts, beats, fails, finalizes, cancels, moment, IsHolder, Effect, drops, unpins,
  postpones, exhausts, reclaims, leases, begins, renews, requeues, ends, stores, repeats, aborts,
}

pub is_closed-states :
    (s : AgentTaskState)
    → is_closed s ≡ false
    → ((s ≡ AgentTaskState.queued) × (is_leased s ≡ false)) ⊎ (is_leased s ≡ true)
unfolding is_closed is_leased
is_closed-states s h = ground arith

-- The guard that the calls of a worker share.
pub has_lost-false :
    (entered : AgentTaskState → Bool) (row : TaskRow) (worker : String) (generation now : ℕ)
    → has_lost entered row worker generation now ≡ false
    → (entered row.state ≡ true)
      × (row.lease_owner ≡ some worker)
      × (row.lease_generation ≡ generation)
      × (has_lapsed row.lease_expires_at now ≡ false)
unfolding has_lost
has_lost-false entered row worker generation now h =
    let (state, rest) = or_false (not (entered row.state)) _ h in
    let (owner, last) = or_false (row.lease_owner != some worker) _ rest in
    let (current, fresh) = or_false (row.lease_generation != generation) _ last in
    (ground (arith, state), eq_of_bne owner, eq_of_bne current, fresh)

has_lost-IsHolder :
    (t : Task) (worker : String) (generation now : ℕ)
    → has_lost is_leased t.row worker generation now ≡ false
    → IsHolder t worker generation now
has_lost-IsHolder t worker generation now h =
    let (ours, owner, current, fresh) = has_lost-false is_leased t.row worker generation now h in
    record { leased = ours; owner = owner; current = current; fresh = fresh }

is_pending-has_lapsed :
    (expiry : Option ℕ) (now : ℕ) → is_pending expiry now ≡ true → has_lapsed expiry now ≡ false
unfolding is_pending has_lapsed
is_pending-has_lapsed none now h = refl
is_pending-has_lapsed (some moment) now h = ground arith

stored-ok :
    (generation : ℕ) (result : FinalResult) (now : ℕ) (t : Task) {u : Task} {after : PlanningTables}
    (persisted : Result PlanningTables)
    → stored generation result now t persisted ≡ ok (after, u)
    → finalized generation result now t ≡ u
unfolding stored
stored-ok generation result now t (ok tables) e = ap (λ p. p.1) (ok-injective e)
stored-ok generation result now t (err code) e = cc

replayed-ok :
    (generation : ℕ) (result : FinalResult) (tables : PlanningTables) (t : Task) {u : Task}
    {after : PlanningTables}
    → replayed generation result tables t ≡ ok (after, u)
    → t ≡ u
unfolding replayed
replayed-ok generation result tables t h =
    let (_, rest) = if-err (t.row.lease_generation != generation) _ _ h in
    let (_, e) = if-err _ _ _ rest in ap (λ p. p.1) (ok-injective e)

module _ (t : Task) {u : Task} (worker : String) (generation : ℕ) where
  start_agent_task-Effect :
      (input_sha256 : String) (now : ℕ)
      → start_agent_task worker generation input_sha256 now t ≡ ok u
      → Effect t now u
  unfolding start_agent_task is_unstarted is_leased
  start_agent_task-Effect input_sha256 now h =
      let (_, last) = if-err (not (is_sha256 input_sha256)) _ _ h in
      let (kept, e) = if-err (has_lost is_unstarted t.row worker generation now) _ _ last in
      let (state, owner, current, fresh) =
        has_lost-false is_unstarted t.row worker generation now kept in
      let at = eq_of_beq state in
      subst (Effect t now) (ok-injective e) (
        begins worker generation input_sha256 now
          (record { leased = ap is_leased at; owner = owner; current = current; fresh = fresh }) at)

  heartbeat_agent_task-Effect :
      (now : ℕ) → heartbeat_agent_task worker generation now t ≡ ok u → Effect t now u
  unfolding heartbeat_agent_task holds_lease
  heartbeat_agent_task-Effect now h =
      let (held, e) = if-ok (holds_lease t.row worker generation now) _ _ h in
      let (ours, last) = and_true (is_leased t.row.state && _) _ held in
      let (entered, owner) = and_true (is_leased t.row.state) _ ours in
      let (current, pending) = and_true (t.row.lease_generation == generation) _ last in
      subst (Effect t now) e (
        renews worker generation now (record {
          leased = entered;
          owner = eq_of_beq owner;
          current = eq_of_beq current;
          fresh = is_pending-has_lapsed t.row.lease_expires_at now pending;
        }))

  fail_agent_task-Effect :
      (code : String) (retryable fallback_used : Bool) (now : ℕ)
      → fail_agent_task worker generation code retryable fallback_used now t ≡ ok u
      → Effect t now u
  unfolding fail_agent_task
  fail_agent_task-Effect code retryable fallback_used now h =
      let (_, last) =
        if-err
          ((fallback_used && (code != "fallback_authority"))
            || (not fallback_used && (code == "fallback_authority")))
          _ _ h in
      let (kept, rest) = if-err (has_lost is_leased t.row worker generation now) _ _ last in
      let holder = has_lost-IsHolder t worker generation now kept in
      elim (Bool-cases (retryable && ltb t.row.attempt_count 3)) [
        | inl again ↦
            subst (Effect t now) (ground (arith, rest, again))
              (requeues worker generation code fallback_used now holder (ground (arith, again)))
        | inr over ↦
            subst (Effect t now) (ground (arith, rest, over))
              (ends worker generation code fallback_used now holder)
      ]

  finalize_agent_task_result-Effect :
      (result : FinalResult) (now : ℕ) (before after : PlanningTables)
      → finalize_agent_task_result worker generation result now before t ≡ ok (after, u)
      → Effect t now u
  unfolding finalize_agent_task_result
  finalize_agent_task_result-Effect result now before after h =
      elim (if-either (is_replay result t.row) (replayed generation result before t) _ h) [
        | inl (_, again) ↦
            subst (Effect t now) (replayed-ok generation result before t again) repeats
        | inr (_, first) ↦
            let (kept, last) = if-err (has_lost is_leased t.row worker generation now) _ _ first in
            let (valid, rest) = if-err (not (is_result_state result.state)) _ _ last in
            let (_, e) = if-err (result.supersedes != t.row.predecessor_planning_run_id) _ _ rest in
            subst (Effect t now) (stored-ok generation result now t _ e) (
              stores worker generation result now (has_lost-IsHolder t worker generation now kept)
                (ground (arith, valid)))
      ]

is_closed-open :
    (s : AgentTaskState)
    → ((s == AgentTaskState.queued) || is_leased s) ≡ true
    → is_closed s ≡ false
unfolding is_closed is_leased
is_closed-open s h = ground arith

cancel_task-Effect :
    (t : Task) {u : Task} (expected_version now : ℕ)
    → cancel_task expected_version now t ≡ ok u
    → Effect t now u
unfolding cancel_task
cancel_task-Effect t expected_version now h =
    let (past, e) = if-err _ _ _ h in
    let (_, opened) = or_false (t.row.row_version != expected_version) _ past in
    subst (Effect t now) (ok-injective e)
      (aborts now (is_closed-open t.row.state (ground (arith, opened))))

claim_leased-Effect :
    (worker : String) (id : Uuid) (now : ℕ) (t : Task)
    → is_leased t.row.state ≡ true
    → Effect t now (claim_leased worker id now t).task
unfolding claim_leased
claim_leased-Effect worker id now t held =
    elim (Bool-cases (is_pending t.row.lease_expires_at now)) [
      | inl pending ↦ rw pending (postpones held)
      | inr past ↦ rw past (elim (Bool-cases (leb 3 t.row.attempt_count)) [
        | inl spent ↦ rw spent (exhausts now held past (ground (arith, spent)))
        | inr again ↦ rw again (reclaims worker id now held past (ground (arith, again)))
      ])
    ]

pub claim_task-Effect :
    (tables : SkillTables) (worker : String) (id : Uuid) (now : ℕ) (t : Task)
    → Effect t now (claim_task tables worker id now t).task
unfolding claim_task
claim_task-Effect tables worker id now t = elim (Bool-cases (is_closed t.row.state)) [
  | inl over ↦ rw over (drops over)
  | inr live ↦ rw live (elim (Bool-cases (is_pinned tables t.row.skill_pin)) [
    | inl pinned ↦ rw pinned (elim (is_closed-states t.row.state live) [
      | inl (waiting, free) ↦ rw free (leases worker id now waiting)
      | inr held ↦ rw held (claim_leased-Effect worker id now t held)
    ])
    | inr loose ↦ rw loose (unpins live)
  ])
]

-- Every call that succeeds has one of the effects.
pub Step-Effect : {t u : Task} (step : Step t u) → Effect t (moment step) u
Step-Effect {t} (claims tables worker id now due) = claim_task-Effect tables worker id now t
Step-Effect {t} (starts worker generation input_sha256 now h) =
    start_agent_task-Effect t worker generation input_sha256 now h
Step-Effect {t} (beats worker generation now h) =
    heartbeat_agent_task-Effect t worker generation now h
Step-Effect {t} (fails worker generation code retryable fallback_used now h) =
    fail_agent_task-Effect t worker generation code retryable fallback_used now h
Step-Effect {t} (finalizes worker generation result now before after h) =
    finalize_agent_task_result-Effect t worker generation result now before after h
Step-Effect {t} (cancels expected_version now h) = cancel_task-Effect t expected_version now h
