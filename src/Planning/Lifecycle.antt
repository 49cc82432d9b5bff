-- ===== src/Planning/Lifecycle.antt =====
-- Runs move forward and end: what the transition tables permit.
use night_voyager.Base.Results.{ok, err, bind-eq-ok}
use night_voyager.Base.{length, ℕ, ◌+◌, ◌≤◌, ◌<◌, ◌≡◌, some, List, [], ◌∷◌, arith}
use night_voyager.Planning.Enums.{RunState}
use night_voyager.Planning.Models.{PlanningInput, PlanningResult}
use night_voyager.Planning.Policy.{assess_routes, evaluate_planning_run}
use night_voyager.Planning.Transitions.{transition_run, run_path}

-- How far a run has come.
abbrev pub progress : RunState → ℕ
progress RunState.draft = 0
progress RunState.collecting_evidence = 1
progress RunState.synthesizing = 2
progress _ = 3

abbrev pub IsTerminal : RunState → Type 0
IsTerminal s = progress s ≡ 3

transition_run-progress :
    (s t : RunState) {u : RunState}
    → transition_run s t ≡ ok u
    → (u ≡ t) × (progress s < progress u)
unfolding transition_run
transition_run-progress RunState.draft t h = ground arith
transition_run-progress RunState.collecting_evidence t h = ground arith
transition_run-progress RunState.synthesizing t h = ground arith
transition_run-progress RunState.failed t h = ground arith
transition_run-progress RunState.blocked t h = ground arith
transition_run-progress RunState.review_required t h = ground arith

progress-le : (s : RunState) → progress s ≤ 3
progress-le RunState.draft = omega arith
progress-le _ = omega arith

run_path-progress :
    (s : RunState) (ts : List RunState) {u : RunState}
    → run_path s ts ≡ ok u
    → length ts + progress s ≤ progress u
unfolding run_path
run_path-progress s [] {u} h = ground arith
run_path-progress s (t ∷ ts) {u} h =
    let (v, step, rest) = bind-eq-ok (transition_run s t) (λ x. run_path x ts) h in
    omega (arith, (transition_run-progress s t step).1, run_path-progress v ts rest)

terminal_transition :
    (s t : RunState) → IsTerminal s → transition_run s t ≡ err "invalid planning run transition"
unfolding transition_run
terminal_transition RunState.draft t h = absurd (omega arith)
terminal_transition RunState.collecting_evidence t h = absurd (omega arith)
terminal_transition RunState.synthesizing t h = absurd (omega arith)
terminal_transition RunState.failed t h = ground arith
terminal_transition RunState.blocked t h = ground arith
terminal_transition RunState.review_required t h = ground arith

-- Whatever transitions are requested, a run accepts at most three of them from its start, and
-- after a terminal state it accepts none.
pub run_path-length :
    (ts : List RunState) {u : RunState}
    → run_path RunState.draft ts ≡ ok u
    → (length ts ≤ 3)
      × ((t : RunState) → IsTerminal u → transition_run u t ≡ err "invalid planning run transition")
run_path-length ts {u} h = (
  omega (arith, run_path-progress RunState.draft ts h, progress-le u),
  λ t end. terminal_transition u t end,
)

-- The state of every evaluation is one that a synthesizing run may move to.
pub evaluate-transition :
    (i : PlanningInput) {r : PlanningResult}
    → evaluate_planning_run i ≡ some r
    → transition_run RunState.synthesizing r.state ≡ ok r.state
unfolding evaluate_planning_run assess_routes transition_run
evaluate-transition i h = ground arith
