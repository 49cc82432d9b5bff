-- ===== src/Tasks/Worker.antt =====
-- `TaskWorker` of tasks/worker.py: one turn of the worker as the calls that it makes, given what the
-- repository and the adapter answer.
use night_voyager.Tasks.Turns.{
  AgentTaskClaim, WorkerTaskInput, Answer, returned, lease_was_lost, pin_was_invalid, raised,
  WorkerCall, load_call, start_call, generate_call, fail_call, finalize_call, Answers, Turn,
}
use night_voyager.Base.{
  if◌then◌else◌, ◌==◌, ◌!=◌, nat_eq, string_eq, option_eq, list_eq, String, Bool, true, false, not,
  ◌||◌, Option, none, some, List, [], ◌∷◌, ◌++◌,
}
use night_voyager.Base.Results.{Result, ok, err, ◌>>=◌}
use night_voyager.Planning.Enums.{
  evidence_authority_eq, evidence_class_eq, redistribution_class_eq, country_eq, route_outcome_eq,
  run_state_eq, case_state_eq,
}
use night_voyager.Planning.Models.{PlanningInput, PlanningResult}
use night_voyager.Planning.Policy.{evaluate_planning_run}
use night_voyager.Tasks.Models.{
  agent_task_state_eq, AdapterFailureCode, adapter_failure_code_eq, planning_operation_eq,
  adapter_id_eq, adapter_version_eq,
}
use night_voyager.Tasks.Policy.{classify_adapter_outcome}
use night_voyager.Tasks.Adapter.{
  AdapterOutcome, delivered, failure, leaf_eq, PlanningAdapterResolution, PlanningAdapterRouter,
  operation_text, resolve,
}
use night_voyager.Tasks.Payload.{PayloadReader, validate_adapter_payload}
use night_voyager.Skills.{
  skill_key_eq, skill_binding_kind_eq, ManifestEntry, manifest_entry_beq, SkillRuntimeManifest,
  validate_pin,
}

-- The tests of `_resolve_runtime` on the packaged entry.
unfoldable pub check_packaged :
    {Bytes : Type 0}
    → SkillRuntimeManifest
    → WorkerTaskInput
    → PlanningAdapterResolution Bytes
    → ManifestEntry
    → Result (PlanningAdapterResolution Bytes)
check_packaged manifest task resolution packaged =
    if not (manifest_entry_beq packaged task.registered_manifest)
    then err "registered Skill manifest does not match packaged runtime"
    else if (task.runtime_manifest_id != manifest.manifest_id)
        || ((task.runtime_manifest_version != manifest.manifest_version)
            || (task.runtime_manifest_sha256 != manifest.manifest_sha256))
    then err "registered runtime manifest identity does not match package"
    else ok resolution

-- The tests of `_resolve_runtime` on the resolution.
unfoldable pub check_resolution :
    {Bytes : Type 0}
    → SkillRuntimeManifest
    → WorkerTaskInput
    → PlanningAdapterResolution Bytes
    → Result (PlanningAdapterResolution Bytes)
check_resolution manifest task resolution =
    if resolution.leaf_binding != task.leaf_binding
    then err "claimed execution leaf does not match resolved router leaf"
    else validate_pin manifest task.skill_pin task.skill_key task.semantic_version
        task.request.operation resolution.leaf_binding
      >>= check_packaged manifest task resolution

-- `_resolve_runtime`
unfoldable pub resolve_runtime :
    {Bytes : Type 0}
    → PlanningAdapterRouter Bytes
    → SkillRuntimeManifest
    → WorkerTaskInput
    → Result (PlanningAdapterResolution Bytes)
resolve_runtime router manifest task =
    resolve router (operation_text task.request.operation) >>= check_resolution manifest task

-- A turn that ends with a call whose lost lease is caught; of another exception nothing is caught.
abbrev closed_by : Answer (Unit {0}) → Option Bool
closed_by (returned _) = some true
closed_by lease_was_lost = some true
closed_by pin_was_invalid = none
closed_by raised = none

abbrev turn : List WorkerCall → Option Bool → Turn
turn calls worked = record { calls = calls; worked = worked }

-- `_fail_invalid_pin`, after the calls that were made.
abbrev pub invalid_pin : {Bytes : Type 0} → Answers Bytes → List WorkerCall → Turn
invalid_pin answers calls =
    turn (calls ++ (fail_call "skill_pin_invalid" false false ∷ [])) (closed_by answers.closing)

-- The evaluation of an input is finalized, unless an assertion failed in it.
unfoldable pub finish :
    {Bytes : Type 0}
    → Answers Bytes
    → WorkerTaskInput
    → PlanningInput
    → Option PlanningResult
    → Turn
finish answers task i none = turn (load_call ∷ start_call ∷ generate_call ∷ []) none
finish answers task i (some result) =
    turn
      (load_call
        ∷ start_call
        ∷ generate_call
        ∷ finalize_call
            (record { input = i; result = result; supersedes_run_id = task.supersedes_run_id })
        ∷ [])
      (closed_by answers.closing)

abbrev failed_with : {Bytes : Type 0} → Answers Bytes → String → Bool → Bool → Turn
failed_with answers code retryable fallback_used =
    turn (load_call ∷ start_call ∷ generate_call ∷ fail_call code retryable fallback_used ∷ [])
      (closed_by answers.closing)

-- What the payload check gave. An error "KeyError" is no `AdapterPayloadError`.
unfoldable pub close_payload :
    {Bytes : Type 0} → Answers Bytes → WorkerTaskInput → Result PlanningInput → Turn
close_payload answers task (ok i) = finish answers task i (evaluate_planning_run i)
close_payload answers task (err code) =
    if code == "KeyError"
    then turn (load_call ∷ start_call ∷ generate_call ∷ []) none
    else failed_with answers code false (code == "fallback_authority")

-- What is done with the adapter's outcome while the lease is held.
unfoldable pub close_task :
    {Bytes : Type 0}
    → PayloadReader Bytes
    → Answers Bytes
    → WorkerTaskInput
    → PlanningAdapterResolution Bytes
    → AdapterOutcome Bytes
    → Turn
close_task reader answers task resolution (failure code) =
    let decision = classify_adapter_outcome code task.attempt_no in
    failed_with answers decision.public_code decision.retryable
      (code == AdapterFailureCode.fallback_authority)
close_task reader answers task resolution (delivered payload) =
    close_payload answers task
      (validate_adapter_payload reader payload task.request (some resolution.leaf_binding))

-- From the adapter's answer on.
unfoldable pub generated :
    {Bytes : Type 0}
    → PayloadReader Bytes
    → Answers Bytes
    → WorkerTaskInput
    → PlanningAdapterResolution Bytes
    → Option (AdapterOutcome Bytes)
    → Turn
generated reader answers task resolution none =
    turn (load_call ∷ start_call ∷ generate_call ∷ []) none
generated reader answers task resolution (some outcome) =
    if answers.lease_lost
    then turn (load_call ∷ start_call ∷ generate_call ∷ []) (some true)
    else close_task reader answers task resolution outcome

-- From the answer of `start` on.
unfoldable pub started :
    {Bytes : Type 0}
    → PayloadReader Bytes
    → Answers Bytes
    → WorkerTaskInput
    → PlanningAdapterResolution Bytes
    → Answer (Unit {0})
    → Turn
started reader answers task resolution (returned _) =
    generated reader answers task resolution answers.outcome
started reader answers task resolution lease_was_lost =
    turn (load_call ∷ start_call ∷ []) (some true)
started reader answers task resolution pin_was_invalid =
    invalid_pin answers (load_call ∷ start_call ∷ [])
started reader answers task resolution raised = turn (load_call ∷ start_call ∷ []) none

-- From the runtime's resolution on.
unfoldable pub resolved :
    {Bytes : Type 0}
    → PayloadReader Bytes
    → Answers Bytes
    → WorkerTaskInput
    → Result (PlanningAdapterResolution Bytes)
    → Turn
resolved reader answers task (err _) = invalid_pin answers (load_call ∷ [])
resolved reader answers task (ok resolution) = started reader answers task resolution answers.start

-- From the answer of `load` on.
unfoldable pub loaded :
    {Bytes : Type 0}
    → PlanningAdapterRouter Bytes
    → SkillRuntimeManifest
    → PayloadReader Bytes
    → Answers Bytes
    → Answer WorkerTaskInput
    → Turn
loaded router manifest reader answers (returned task) =
    resolved reader answers task (resolve_runtime router manifest task)
loaded router manifest reader answers lease_was_lost = turn (load_call ∷ []) (some true)
loaded router manifest reader answers pin_was_invalid = invalid_pin answers (load_call ∷ [])
loaded router manifest reader answers raised = turn (load_call ∷ []) none

-- `run_once`; without a claim nothing is done.
unfoldable pub run_once :
    {Bytes : Type 0}
    → PlanningAdapterRouter Bytes
    → SkillRuntimeManifest
    → PayloadReader Bytes
    → Option AgentTaskClaim
    → Answers Bytes
    → Turn
run_once router manifest reader none answers = turn [] (some false)
run_once router manifest reader (some claim) answers =
    loaded router manifest reader answers answers.load
