-- ===== src/Tasks/Closing.antt =====
-- How a turn of the worker ends: what it may report, and when.
use night_voyager.Tasks.Turns.{
  AgentTaskClaim, WorkerTaskInput, Answer, returned, lease_was_lost, pin_was_invalid, raised,
  WorkerCall, generate_call, fail_call, finalize_call, Answers, Turn,
}
use night_voyager.Base.Results.{Result, ok, err}
use night_voyager.Skills.{SkillRuntimeManifest}
use night_voyager.Base.{any, count_if, ℕ, ◌≤◌, ◌≡◌, Bool, true, false, Option, none, some, arith}
use night_voyager.Planning.Models.{PlanningInput}
use night_voyager.Tasks.Adapter.{
  AdapterOutcome, delivered, failure, PlanningAdapterResolution, PlanningAdapterRouter,
}
use night_voyager.Tasks.Payload.{PayloadReader, validate_adapter_payload}
use night_voyager.Tasks.Worker.{
  resolve_runtime, finish, close_payload, close_task, generated, started, resolved, loaded,
  run_once,
}

-- The calls that end a task.
abbrev pub is_closing : WorkerCall → Bool
is_closing (fail_call _ _ _) = true
is_closing (finalize_call _) = true
is_closing _ = false

abbrev pub closings : Turn → ℕ
closings t = count_if is_closing t.calls

-- Whether the adapter was called.
abbrev is_generate : WorkerCall → Bool
is_generate generate_call = true
is_generate _ = false

abbrev pub was_generated : Turn → Bool
was_generated t = any is_generate t.calls

module _ {Bytes : Type 0} (reader : PayloadReader Bytes) (answers : Answers Bytes) where
  -- At most one closing call, and none where the lease was lost meanwhile.
  abbrev IsClosed : Turn → Type 0
  IsClosed t =
      (closings t ≤ 1) × (answers.lease_lost ≡ true → was_generated t ≡ true → closings t ≡ 0)

  close_payload-closings :
      (task : WorkerTaskInput) (i : Result PlanningInput)
      → closings (close_payload answers task i) ≤ 1
  unfolding close_payload finish
  close_payload-closings task (ok i) = ground arith
  close_payload-closings task (err code) = ground arith

  close_task-closings :
      (task : WorkerTaskInput) (resolution : PlanningAdapterResolution Bytes)
      (outcome : AdapterOutcome Bytes)
      → closings (close_task reader answers task resolution outcome) ≤ 1
  unfolding close_task
  close_task-closings task resolution (failure code) = omega arith
  close_task-closings task resolution (delivered payload) =
      close_payload-closings task
        (validate_adapter_payload reader payload task.request (some resolution.leaf_binding))

  generated-IsClosed :
      (task : WorkerTaskInput) (resolution : PlanningAdapterResolution Bytes)
      (outcome : Option (AdapterOutcome Bytes))
      → IsClosed (generated reader answers task resolution outcome)
  unfolding generated
  generated-IsClosed task resolution none = ground arith
  generated-IsClosed task resolution (some outcome) =
      ground (arith, close_task-closings task resolution outcome)

  started-IsClosed :
      (task : WorkerTaskInput) (resolution : PlanningAdapterResolution Bytes)
      (answer : Answer (Unit {0}))
      → IsClosed (started reader answers task resolution answer)
  unfolding started
  started-IsClosed task resolution (returned _) = generated-IsClosed task resolution answers.outcome
  started-IsClosed task resolution lease_was_lost = ground arith
  started-IsClosed task resolution pin_was_invalid = ground arith
  started-IsClosed task resolution raised = ground arith

  resolved-IsClosed :
      (task : WorkerTaskInput) (resolution : Result (PlanningAdapterResolution Bytes))
      → IsClosed (resolved reader answers task resolution)
  unfolding resolved
  resolved-IsClosed task (ok resolution) = started-IsClosed task resolution answers.start
  resolved-IsClosed task (err _) = ground arith

  loaded-IsClosed :
      (router : PlanningAdapterRouter Bytes) (manifest : SkillRuntimeManifest)
      (answer : Answer WorkerTaskInput)
      → IsClosed (loaded router manifest reader answers answer)
  unfolding loaded
  loaded-IsClosed router manifest (returned task) =
      resolved-IsClosed task (resolve_runtime router manifest task)
  loaded-IsClosed router manifest lease_was_lost = ground arith
  loaded-IsClosed router manifest pin_was_invalid = ground arith
  loaded-IsClosed router manifest raised = ground arith

-- Whatever the repository and the adapter answer, one turn of the worker ends a task at most once,
-- by a failure or a result, and not at all where the lease was lost while the adapter ran.
pub run_once-closings :
    {Bytes : Type 0} (router : PlanningAdapterRouter Bytes) (manifest : SkillRuntimeManifest)
    (reader : PayloadReader Bytes) (claim : Option AgentTaskClaim) (answers : Answers Bytes)
    → (closings (run_once router manifest reader claim answers) ≤ 1)
      × (answers.lease_lost ≡ true
          → was_generated (run_once router manifest reader claim answers) ≡ true
          → closings (run_once router manifest reader claim answers) ≡ 0)
unfolding run_once
run_once-closings router manifest reader none answers = ground arith
run_once-closings router manifest reader (some claim) answers =
    loaded-IsClosed reader answers router manifest answers.load
