-- ===== src/Tasks/Runtime.antt =====
-- What a resolved runtime rests on.
use night_voyager.Tasks.Turns.{WorkerTaskInput}
use night_voyager.Base.{
  Option-cases, ◌==◌, nat_eq, string_eq, option_beq_iff, option_eq, find_first, list_eq, String,
  ◌≡◌, sym, ap, ◌∙◌, inl, inr, true, some, arith,
}
use night_voyager.Base.Results.{ok, ◌>>=◌, bind-eq-ok}
use night_voyager.Tasks.Models.{
  agent_task_state_eq, adapter_failure_code_eq, PlanningOperation, planning_operation_eq,
  adapter_id_eq, adapter_version_eq,
}
use night_voyager.Tasks.Adapter.{
  SkillLeafBinding, leaf_beq_iff, leaf_eq, PlanningAdapterResolution, PlanningAdapterRouter,
  operation_text, resolve,
}
use night_voyager.Tasks.Worker.{check_packaged, check_resolution, resolve_runtime}
use night_voyager.Skills.{
  SkillKey, skill_key_eq, planning_runtime, skill_binding_kind_beq_iff, skill_binding_kind_eq,
  SkillRuntimePin, ManifestEntry, manifest_entry_beq, SkillRuntimeManifest, find_entry, get_skill,
  bindings_of, check_pin, validate_pin,
}

-- A packaged entry of the manifest, for the task's skill, with its pinned digest.
pub record IsPackaged (manifest : SkillRuntimeManifest) (task : WorkerTaskInput)
    (entry : ManifestEntry) : Type 0 where
  pub packaged : find_entry manifest.entries task.skill_key task.semantic_version ≡ some entry
  pub executable : entry.binding_kind ≡ planning_runtime
  pub digest : entry.runtime_binding_sha256 ≡ some task.skill_pin.runtime_binding_sha256
  pub registered : manifest_entry_beq entry task.registered_manifest ≡ true

get_skill-found :
    (m : SkillRuntimeManifest) (k : SkillKey) (v : String) {entry : ManifestEntry}
    → get_skill m k v ≡ ok entry
    → find_entry m.entries k v ≡ some entry
unfolding get_skill
get_skill-found m k v h = elim (Option-cases (find_entry m.entries k v)) [
  | inl absent ↦ absurd (ground (arith, absent))
  | inr (e, found) ↦ found ∙ ap some (ground (arith, found))
]

check_pin-parts :
    (pin : SkillRuntimePin) (o : PlanningOperation) (l : SkillLeafBinding) (e : ManifestEntry)
    {entry : ManifestEntry}
    → check_pin pin o l e ≡ ok entry
    → (e ≡ entry)
      × (e.binding_kind ≡ planning_runtime)
      × (e.runtime_binding_sha256 ≡ some pin.runtime_binding_sha256)
      × (find_first (λ b. b.operation == o) (bindings_of e) ≡ some l)
unfolding check_pin
check_pin-parts pin o l e h =
    elim (Option-cases (find_first (λ b. b.operation == o) (bindings_of e))) [
      | inl absent ↦ absurd (ground (arith, absent))
      | inr (leaf, found) ↦
          let same : l ≡ leaf = ground (arith, found, leaf_beq_iff l leaf) in
          (
            ground (arith, found),
            ground (arith, found, skill_binding_kind_beq_iff e.binding_kind planning_runtime),
            ground (
              arith,
              found,
              option_beq_iff e.runtime_binding_sha256 (some pin.runtime_binding_sha256),
            ),
            found ∙ ap some (sym same),
          )
    ]

-- What the worker has resolved for a task.
pub record IsRuntime {Bytes : Type 0} (router : PlanningAdapterRouter Bytes)
    (manifest : SkillRuntimeManifest) (task : WorkerTaskInput)
    (resolution : PlanningAdapterResolution Bytes) : Type 0 where
  pub route : resolve router (operation_text task.request.operation) ≡ ok resolution
  pub leaf : resolution.leaf_binding ≡ task.leaf_binding
  pub entry : ManifestEntry
  pub packaged : IsPackaged manifest task entry
  pub binding :
      find_first (λ b. b.operation == task.request.operation) (bindings_of entry)
      ≡ some task.leaf_binding
  pub manifest_digest : task.runtime_manifest_sha256 ≡ manifest.manifest_sha256

check_packaged-parts :
    {Bytes : Type 0} (m : SkillRuntimeManifest) (task : WorkerTaskInput)
    (given : PlanningAdapterResolution Bytes) (entry : ManifestEntry)
    {r : PlanningAdapterResolution Bytes}
    → check_packaged m task given entry ≡ ok r
    → (given ≡ r)
      × (manifest_entry_beq entry task.registered_manifest ≡ true)
      × (task.runtime_manifest_sha256 ≡ m.manifest_sha256)
unfolding check_packaged
check_packaged-parts m task given entry h =
    ground (arith, string_eq.eqb_iff task.runtime_manifest_sha256 m.manifest_sha256)

check_resolution-parts :
    {Bytes : Type 0} (m : SkillRuntimeManifest) (task : WorkerTaskInput)
    (given : PlanningAdapterResolution Bytes) {r : PlanningAdapterResolution Bytes}
    → check_resolution m task given ≡ ok r
    → (given.leaf_binding ≡ task.leaf_binding)
      × ((validate_pin m task.skill_pin task.skill_key task.semantic_version task.request.operation
              given.leaf_binding
            >>= check_packaged m task given)
          ≡ ok r)
unfolding check_resolution
check_resolution-parts m task given h =
    ground (arith, leaf_beq_iff given.leaf_binding task.leaf_binding)

-- A runtime that is resolved for a task is the router's for the operation, with the leaf that the
-- task claimed, and rests on the packaged entry of the task's skill: executable, with the pinned
-- digest, equal to the registered one, and binding the operation to that leaf.
pub resolve_runtime-IsRuntime :
    {Bytes : Type 0} (router : PlanningAdapterRouter Bytes) (manifest : SkillRuntimeManifest)
    (task : WorkerTaskInput) {resolution : PlanningAdapterResolution Bytes}
    → resolve_runtime router manifest task ≡ ok resolution
    → IsRuntime router manifest task resolution
unfolding resolve_runtime validate_pin
resolve_runtime-IsRuntime router m task {resolution} h =
    let (given, routed, h1) =
      bind-eq-ok (resolve router (operation_text task.request.operation)) (check_resolution m task)
        h in
    let (leaf, h2) = check_resolution-parts m task given h1 in
    let (entry, pinned, h3) =
      bind-eq-ok
        (validate_pin m task.skill_pin task.skill_key task.semantic_version task.request.operation
          given.leaf_binding)
        (check_packaged m task given) h2 in
    let (same, registered, digest) = check_packaged-parts m task given entry h3 in
    let (got, found, checked) =
      bind-eq-ok (get_skill m task.skill_key task.semantic_version)
        (check_pin task.skill_pin task.request.operation given.leaf_binding) pinned in
    let (entry_same, kind, sha, binding) =
      check_pin-parts task.skill_pin task.request.operation given.leaf_binding got checked in
    let is_entry = get_skill-found m task.skill_key task.semantic_version found in
    record {
      route = routed ∙ ap ok same;
      leaf = ap (λ r. r.leaf_binding) (sym same) ∙ leaf;
      entry = got;
      packaged = record {
        packaged = is_entry;
        executable = kind;
        digest = sha;
        registered =
            ap (λ e. manifest_entry_beq e task.registered_manifest) entry_same ∙ registered;
      };
      binding = binding ∙ ap some leaf;
      manifest_digest = digest;
    }
