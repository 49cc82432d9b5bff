-- ===== src/Tasks/Finalizing.antt =====
-- What a turn of the worker finalizes.
use night_voyager.Tasks.Turns.{
  AgentTaskClaim, WorkerTaskInput, Answer, returned, lease_was_lost, pin_was_invalid, raised,
  Finalized, WorkerCall, finalize_call, Answers,
}
use night_voyager.Base.{
  Bool-cases, ◌≡◌, refl, sym, ap, ◌∙◌, inl, inr, false, Option, none, some, List, [], ◌∷◌, arith,
}
use night_voyager.Base.Results.{Result, ok, err}
use night_voyager.Planning.Models.{PlanningInput, PlanningResult}
use night_voyager.Planning.Policy.{evaluate_planning_run}
use night_voyager.Tasks.Adapter.{
  AdapterOutcome, delivered, failure, PlanningAdapterResolution, PlanningAdapterRouter,
}
use night_voyager.Tasks.Payload.{PayloadReader, validate_adapter_payload}
use night_voyager.Tasks.Pins.{IsPinned, validate_adapter_payload-IsPinned}
use night_voyager.Tasks.Worker.{
  resolve_runtime, finish, close_payload, close_task, generated, started, resolved, loaded,
  run_once,
}
use night_voyager.Skills.{SkillRuntimeManifest}

-- The first result among the calls.
abbrev pub finalized_in : List WorkerCall → Option Finalized
finalized_in [] = none
finalized_in (finalize_call f ∷ calls) = some f
finalized_in (_ ∷ calls) = finalized_in calls

-- A result of the evaluation of a pinned input, that the runtime of the task was resolved for.
abbrev pub IsEarned :
    {Bytes : Type 0}
    → PlanningAdapterRouter Bytes
    → SkillRuntimeManifest
    → Answers Bytes
    → Finalized
    → Type 0
IsEarned {Bytes} router manifest answers f =
    (task : WorkerTaskInput) × (answers.load ≡ returned task)
    × ((resolution : PlanningAdapterResolution Bytes) × (resolve_runtime router manifest task
          ≡ ok resolution)
        × (resolution.leaf_binding.operation ≡ task.request.operation))
    × (answers.lease_lost ≡ false)
    × IsPinned task.request f.input
    × (evaluate_planning_run f.input ≡ some f.result)
    × (f.supersedes_run_id ≡ task.supersedes_run_id)

module _ {Bytes : Type 0} (reader : PayloadReader Bytes) (answers : Answers Bytes) where
  finish-finalized :
      (task : WorkerTaskInput) (i : PlanningInput) (r : Option PlanningResult) {f : Finalized}
      → finalized_in (finish answers task i r).calls ≡ some f
      → (f.input ≡ i) × (r ≡ some f.result) × (f.supersedes_run_id ≡ task.supersedes_run_id)
  unfolding finish
  finish-finalized task i none h = absurd (ground arith)
  finish-finalized task i (some r) h = ground arith

  close_payload-finalized :
      (task : WorkerTaskInput) (p : Result PlanningInput) {f : Finalized}
      → finalized_in (close_payload answers task p).calls ≡ some f
      → (p ≡ ok f.input)
        × (evaluate_planning_run f.input ≡ some f.result)
        × (f.supersedes_run_id ≡ task.supersedes_run_id)
  unfolding close_payload
  close_payload-finalized task (ok i) {f} h =
      let (same, run, supersedes) = finish-finalized task i (evaluate_planning_run i) h in
      (ap ok (sym same), ap evaluate_planning_run same ∙ run, supersedes)
  close_payload-finalized task (err code) h = absurd (ground arith)

  close_task-finalized :
      (task : WorkerTaskInput) (resolution : PlanningAdapterResolution Bytes)
      (outcome : AdapterOutcome Bytes) {f : Finalized}
      → finalized_in (close_task reader answers task resolution outcome).calls ≡ some f
      → IsPinned task.request f.input
        × (resolution.leaf_binding.operation ≡ task.request.operation)
        × (evaluate_planning_run f.input ≡ some f.result)
        × (f.supersedes_run_id ≡ task.supersedes_run_id)
  unfolding close_task
  close_task-finalized task resolution (failure code) h = absurd (ground arith)
  close_task-finalized task resolution (delivered payload) h =
      let (valid, run, supersedes) =
        close_payload-finalized task
          (validate_adapter_payload reader payload task.request (some resolution.leaf_binding)) h in
      let (pinned, _, operation, _, _) =
        validate_adapter_payload-IsPinned reader payload task.request resolution.leaf_binding
          valid in
      (pinned, operation, run, supersedes)

  generated-finalized :
      (task : WorkerTaskInput) (resolution : PlanningAdapterResolution Bytes)
      (outcome : Option (AdapterOutcome Bytes)) {f : Finalized}
      → finalized_in (generated reader answers task resolution outcome).calls ≡ some f
      → (answers.lease_lost ≡ false)
        × IsPinned task.request f.input
        × (resolution.leaf_binding.operation ≡ task.request.operation)
        × (evaluate_planning_run f.input ≡ some f.result)
        × (f.supersedes_run_id ≡ task.supersedes_run_id)
  unfolding generated
  generated-finalized task resolution none h = absurd (ground arith)
  generated-finalized task resolution (some outcome) h = elim (Bool-cases answers.lease_lost) [
    | inl lost ↦ absurd (ground (arith, lost))
    | inr held ↦
        let kept = close_task-finalized task resolution outcome (ground (arith, held)) in
        (held, kept.0, kept.1, kept.2, kept.3)
  ]

  started-finalized :
      (task : WorkerTaskInput) (resolution : PlanningAdapterResolution Bytes)
      (answer : Answer (Unit {0})) {f : Finalized}
      → finalized_in (started reader answers task resolution answer).calls ≡ some f
      → (answers.lease_lost ≡ false)
        × IsPinned task.request f.input
        × (resolution.leaf_binding.operation ≡ task.request.operation)
        × (evaluate_planning_run f.input ≡ some f.result)
        × (f.supersedes_run_id ≡ task.supersedes_run_id)
  unfolding started
  started-finalized task resolution (returned _) h =
      generated-finalized task resolution answers.outcome h
  started-finalized task resolution lease_was_lost h = absurd (ground arith)
  started-finalized task resolution pin_was_invalid h = absurd (ground arith)
  started-finalized task resolution raised h = absurd (ground arith)

  resolved-finalized :
      (router : PlanningAdapterRouter Bytes) (manifest : SkillRuntimeManifest)
      (task : WorkerTaskInput) (resolution : Result (PlanningAdapterResolution Bytes))
      {f : Finalized}
      → answers.load ≡ returned task
      → resolve_runtime router manifest task ≡ resolution
      → finalized_in (resolved reader answers task resolution).calls ≡ some f
      → IsEarned router manifest answers f
  unfolding resolved
  resolved-finalized router manifest task (err _) at same h = absurd (ground arith)
  resolved-finalized router manifest task (ok resolution) at same h =
      let (held, pinned, operation, run, supersedes) =
        started-finalized task resolution answers.start h in
      (task, at, (resolution, same, operation), held, pinned, run, supersedes)

  loaded-finalized :
      (router : PlanningAdapterRouter Bytes) (manifest : SkillRuntimeManifest)
      (answer : Answer WorkerTaskInput) {f : Finalized}
      → answers.load ≡ answer
      → finalized_in (loaded router manifest reader answers answer).calls ≡ some f
      → IsEarned router manifest answers f
  unfolding loaded
  loaded-finalized router manifest (returned task) at h =
      resolved-finalized router manifest task (resolve_runtime router manifest task) at refl h
  loaded-finalized router manifest lease_was_lost at h = absurd (ground arith)
  loaded-finalized router manifest pin_was_invalid at h = absurd (ground arith)
  loaded-finalized router manifest raised at h = absurd (ground arith)

-- A result that the worker finalizes was earned: the runtime of the loaded task was resolved for the
-- request's operation, the lease was held, and the result is the evaluation of an input with the
-- pins of the request.
pub run_once-IsEarned :
    {Bytes : Type 0} (router : PlanningAdapterRouter Bytes) (manifest : SkillRuntimeManifest)
    (reader : PayloadReader Bytes) (claim : Option AgentTaskClaim) (answers : Answers Bytes)
    {f : Finalized}
    → finalized_in (run_once router manifest reader claim answers).calls ≡ some f
    → IsEarned router manifest answers f
unfolding run_once
run_once-IsEarned router manifest reader none answers h = absurd (ground arith)
run_once-IsEarned router manifest reader (some claim) answers h =
    loaded-finalized reader answers router manifest answers.load refl h
