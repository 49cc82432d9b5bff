-- ===== src/Tasks/Retrying.antt =====
-- When a turn of the worker asks for a retry, and what a resolved runtime rests on.
use night_voyager.Tasks.Turns.{
  AgentTaskClaim, WorkerTaskInput, Answer, returned, lease_was_lost, pin_was_invalid, raised,
  WorkerCall, fail_call, Answers,
}
use night_voyager.Base.{
  Bool-cases, ℕ, ◌<◌, ◌≡◌, refl, inl, inr, Bool, true, false, Option, none, some, List, [], ◌∷◌,
  arith,
}
use night_voyager.Base.Results.{Result, ok, err}
use night_voyager.Planning.Models.{PlanningInput}
use night_voyager.Tasks.Models.{AdapterFailureCode}
use night_voyager.Tasks.Policy.{classify_adapter_outcome}
use night_voyager.Tasks.Outcomes.{is_transient, classify_adapter_outcome-Classified}
use night_voyager.Tasks.Adapter.{
  AdapterOutcome, delivered, failure, PlanningAdapterResolution, PlanningAdapterRouter,
}
use night_voyager.Tasks.Payload.{PayloadReader, validate_adapter_payload}
use night_voyager.Tasks.Worker.{
  resolve_runtime, finish, close_payload, close_task, generated, started, resolved, loaded,
  run_once,
}
use night_voyager.Skills.{SkillRuntimeManifest}

-- Whether a failure is reported as one to retry.
abbrev pub retried_in : List WorkerCall → Bool
retried_in [] = false
retried_in (fail_call _ true _ ∷ calls) = true
retried_in (_ ∷ calls) = retried_in calls

-- The loaded task's adapter failed by a transient code, with fewer than three attempts.
abbrev pub IsTransient : {Bytes : Type 0} → Answers Bytes → Type 0
IsTransient answers =
    (task : WorkerTaskInput) × (code : AdapterFailureCode) × (answers.load ≡ returned task)
    × (answers.outcome ≡ some (failure code))
    × (is_transient code ≡ true)
    × (task.attempt_no < 3)

classify-retryable :
    (code : AdapterFailureCode) (n : ℕ)
    → (classify_adapter_outcome code n).retryable ≡ true
    → (is_transient code ≡ true) × (n < 3)
classify-retryable code n h = elim (classify_adapter_outcome-Classified code n) [
  | inl (_, _, transient, early) ↦ (transient, early)
  | inr (never, _, _) ↦ absurd (ground arith)
]

module _ {Bytes : Type 0} (reader : PayloadReader Bytes) (answers : Answers Bytes) where
  close_payload-retried :
      (task : WorkerTaskInput) (p : Result PlanningInput)
      → retried_in (close_payload answers task p).calls ≡ false
  unfolding close_payload finish
  close_payload-retried task (ok i) = ground arith
  close_payload-retried task (err code) = ground arith

  close_task-retried :
      (task : WorkerTaskInput) (resolution : PlanningAdapterResolution Bytes)
      (outcome : AdapterOutcome Bytes)
      → answers.load ≡ returned task
      → answers.outcome ≡ some outcome
      → retried_in (close_task reader answers task resolution outcome).calls ≡ true
      → IsTransient answers
  unfolding close_task
  close_task-retried task resolution (failure code) at gave h =
      let (transient, early) = classify-retryable code task.attempt_no (ground arith) in
      (task, code, at, gave, transient, early)
  close_task-retried task resolution (delivered payload) at gave h = absurd (
      ground (
        arith,
        close_payload-retried task
            (validate_adapter_payload reader payload task.request (some resolution.leaf_binding)),
      ))

  generated-retried :
      (task : WorkerTaskInput) (resolution : PlanningAdapterResolution Bytes)
      (outcome : Option (AdapterOutcome Bytes))
      → answers.load ≡ returned task
      → answers.outcome ≡ outcome
      → retried_in (generated reader answers task resolution outcome).calls ≡ true
      → IsTransient answers
  unfolding generated
  generated-retried task resolution none at gave h = absurd (ground arith)
  generated-retried task resolution (some outcome) at gave h =
      elim (Bool-cases answers.lease_lost) [
        | inl lost ↦ absurd (ground (arith, lost))
        | inr held ↦ close_task-retried task resolution outcome at gave (ground (arith, held))
      ]

  started-retried :
      (task : WorkerTaskInput) (resolution : PlanningAdapterResolution Bytes)
      (answer : Answer (Unit {0}))
      → answers.load ≡ returned task
      → retried_in (started reader answers task resolution answer).calls ≡ true
      → IsTransient answers
  unfolding started
  started-retried task resolution (returned _) at h =
      generated-retried task resolution answers.outcome at refl h
  started-retried task resolution lease_was_lost at h = absurd (ground arith)
  started-retried task resolution pin_was_invalid at h = absurd (ground arith)
  started-retried task resolution raised at h = absurd (ground arith)

  resolved-retried :
      (task : WorkerTaskInput) (resolution : Result (PlanningAdapterResolution Bytes))
      → answers.load ≡ returned task
      → retried_in (resolved reader answers task resolution).calls ≡ true
      → IsTransient answers
  unfolding resolved
  resolved-retried task (ok resolution) at h = started-retried task resolution answers.start at h
  resolved-retried task (err _) at h = absurd (ground arith)

  loaded-retried :
      (router : PlanningAdapterRouter Bytes) (manifest : SkillRuntimeManifest)
      (answer : Answer WorkerTaskInput)
      → answers.load ≡ answer
      → retried_in (loaded router manifest reader answers answer).calls ≡ true
      → IsTransient answers
  unfolding loaded
  loaded-retried router manifest (returned task) at h =
      resolved-retried task (resolve_runtime router manifest task) at h
  loaded-retried router manifest lease_was_lost at h = absurd (ground arith)
  loaded-retried router manifest pin_was_invalid at h = absurd (ground arith)
  loaded-retried router manifest raised at h = absurd (ground arith)

-- The worker asks for a retry only where the adapter of the loaded task failed by a transient code,
-- and the task had fewer than three attempts.
pub run_once-IsTransient :
    {Bytes : Type 0} (router : PlanningAdapterRouter Bytes) (manifest : SkillRuntimeManifest)
    (reader : PayloadReader Bytes) (claim : Option AgentTaskClaim) (answers : Answers Bytes)
    → retried_in (run_once router manifest reader claim answers).calls ≡ true
    → IsTransient answers
unfolding run_once
run_once-IsTransient router manifest reader none answers h = absurd (ground arith)
run_once-IsTransient router manifest reader (some claim) answers h =
    loaded-retried reader answers router manifest answers.load refl h
