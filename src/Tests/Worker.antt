-- ===== src/Tests/Worker.antt =====
-- Turns of the worker: one that finalizes the golden run, and one that asks for a retry.
use night_voyager.Tasks.Turns.{AgentTaskClaim, WorkerTaskInput, returned, Finalized, Answers, Turn}
use night_voyager.Base.{ℕ, ◌≤◌, ◌≡◌, refl, true, false, none, some, [], ◌∷◌}
use night_voyager.Base.Results.{ok}
use night_voyager.Tasks.Models.{
  AdapterFailureCode, generate_planning_run_v1, generate_governed_mixed_planning_run_v1,
}
use night_voyager.Tasks.Policy.{classify_adapter_outcome}
use night_voyager.Tasks.Adapter.{
  AdapterOutcome, delivered, failure, expected_leaf, PlanningAdapterResolution,
  PlanningAdapterRouter, resolve,
}
use night_voyager.Tasks.Worker.{
  check_packaged, check_resolution, resolve_runtime, finish, close_payload, close_task, generated,
  started, resolved, loaded, run_once,
}
use night_voyager.Tasks.Closing.{closings, was_generated, run_once-closings}
use night_voyager.Tasks.Finalizing.{finalized_in, IsEarned, run_once-IsEarned}
use night_voyager.Tasks.Retrying.{retried_in, IsTransient, run_once-IsTransient}
use night_voyager.Tasks.Runtime.{IsRuntime, resolve_runtime-IsRuntime}
use night_voyager.Skills.{
  study_destination_compare, planning_runtime, ManifestEntry, manifest_entry_beq,
  SkillRuntimeManifest, get_skill, check_pin, validate_pin,
}
use night_voyager.Tests.Golden.{golden}
use night_voyager.Tests.Planning.{planning_run, output_of}
use night_voyager.Tests.Tasks.{reader_of, request, payload, check_payload}

abbrev compare_skill : ManifestEntry
compare_skill = record {
  skill_key = study_destination_compare;
  version = "1.0.1";
  binding_kind = planning_runtime;
  operation_bindings = some (
      expected_leaf generate_planning_run_v1
      ∷ expected_leaf generate_governed_mixed_planning_run_v1
      ∷ []);
  runtime_binding_sha256 = some "b1";
  other_fields = "{}";
}

abbrev manifest : SkillRuntimeManifest
manifest = record {
  manifest_id = "night-voyager.skill-runtime-manifest";
  manifest_version = "1.0.0";
  entries = compare_skill ∷ [];
  manifest_sha256 = "a1";
}

abbrev router : PlanningAdapterRouter ℕ
router = record {
  synthetic = λ r. delivered payload;
  mixed = λ r. failure AdapterFailureCode.unknown;
}

abbrev task : WorkerTaskInput
task = record {
  request = request;
  skill_pin = record {
    skill_definition_id = 1;
    skill_version_id = 2;
    skill_activation_event_id = 3;
    skill_activation_sequence = 4;
    runtime_binding_sha256 = "b1";
  };
  skill_key = study_destination_compare;
  semantic_version = "1.0.1";
  leaf_binding = expected_leaf generate_planning_run_v1;
  registered_manifest = compare_skill;
  runtime_manifest_id = "night-voyager.skill-runtime-manifest";
  runtime_manifest_version = "1.0.0";
  runtime_manifest_sha256 = "a1";
  supersedes_run_id = none;
  attempt_no = 2;
}

abbrev claim : AgentTaskClaim
claim = record { task_id = 95; organization_id = 10; lease_generation = 1 }

abbrev answers_with : AdapterOutcome ℕ → Answers ℕ
answers_with outcome = record {
  load = returned task;
  start = returned tt;
  outcome = some outcome;
  lease_lost = false;
  closing = returned tt;
}

abbrev resolution : PlanningAdapterResolution ℕ
resolution = record {
  leaf_binding = expected_leaf generate_planning_run_v1;
  adapter = router.synthetic;
}

runtime : resolve_runtime router manifest task ≡ ok resolution
unfolding resolve_runtime resolve check_resolution check_packaged validate_pin get_skill check_pin
    manifest_entry_beq
runtime = refl

resolve_runtime-IsRuntime_example : IsRuntime router manifest task resolution
resolve_runtime-IsRuntime_example = resolve_runtime-IsRuntime router manifest task runtime

abbrev golden_finalized : Finalized
golden_finalized = record { input = golden; result = output_of golden; supersedes_run_id = none }

-- Unfolding this opens a turn of the worker.
one_turn : Answers ℕ → Turn
unfolding check_payload planning_run resolve_runtime resolve check_resolution check_packaged
    validate_pin get_skill check_pin manifest_entry_beq run_once loaded resolved started generated
    close_task close_payload finish classify_adapter_outcome
one_turn answers = run_once router manifest (reader_of golden) (some claim) answers

golden_turn :
    finalized_in
      (run_once router manifest
        (reader_of golden)
        (some claim)
        (answers_with (delivered payload))).calls
    ≡ some golden_finalized
unfolding one_turn
golden_turn = refl

run_once-IsEarned_example :
    IsEarned router manifest (answers_with (delivered payload)) golden_finalized
run_once-IsEarned_example =
    run_once-IsEarned router manifest (reader_of golden) (some claim)
      (answers_with (delivered payload)) golden_turn

interrupted_turn :
    retried_in
      (run_once router manifest
        (reader_of golden)
        (some claim)
        (answers_with (failure AdapterFailureCode.transport_interrupted))).calls
    ≡ true
unfolding one_turn
interrupted_turn = refl

run_once-IsTransient_example :
    IsTransient (answers_with (failure AdapterFailureCode.transport_interrupted))
run_once-IsTransient_example =
    run_once-IsTransient router manifest (reader_of golden) (some claim)
      (answers_with (failure AdapterFailureCode.transport_interrupted)) interrupted_turn

abbrev lost : Answers ℕ
lost = record {
  load = returned task;
  start = returned tt;
  outcome = some (delivered payload);
  lease_lost = true;
  closing = returned tt;
}

run_once-closings_example :
    (closings (run_once router manifest (reader_of golden) (some claim) lost) ≤ 1)
    × (true ≡ true
        → was_generated (run_once router manifest (reader_of golden) (some claim) lost) ≡ true
        → closings (run_once router manifest (reader_of golden) (some claim) lost) ≡ 0)
run_once-closings_example = run_once-closings router manifest (reader_of golden) (some claim) lost
