-- ===== src/Skills.antt =====
-- The skill manifest and its registry: skills/models.py and skills/registry.py. Of a manifest entry
-- the fields that the registry reads are modelled, and its other fields are one text.
use night_voyager.Base.{
  if◌then◌else◌, HasEq, ◌==◌, ◌!=◌, nat_eq, string_eq, option_eq, select, find_first, list_eq, ℕ,
  String, ◌≡◌, ◌↔◌, Bool, true, false, ◌&&◌, Option, none, some, List, [], ◌∷◌, arith,
}
use night_voyager.Base.Results.{Result, ok, err, ◌>>=◌}
use night_voyager.Planning.Models.{Uuid}
use night_voyager.Tasks.Models.{
  agent_task_state_eq, adapter_failure_code_eq, PlanningOperation, planning_operation_eq,
  adapter_id_eq, adapter_version_eq,
}
use night_voyager.Tasks.Adapter.{SkillLeafBinding, leaf_eq}

pub data SkillKey : Type 0 where
  student_profile_intake study_destination_compare evidence_research document_evidence_retrieval
        family_decision_brief application_timeline_guard :
      SkillKey

abbrev pub skill_key_beq : SkillKey → SkillKey → Bool
skill_key_beq student_profile_intake student_profile_intake = true
skill_key_beq study_destination_compare study_destination_compare = true
skill_key_beq evidence_research evidence_research = true
skill_key_beq document_evidence_retrieval document_evidence_retrieval = true
skill_key_beq family_decision_brief family_decision_brief = true
skill_key_beq application_timeline_guard application_timeline_guard = true
skill_key_beq _ _ = false

pub skill_key_beq_iff : (a b : SkillKey) → (skill_key_beq a b ≡ true) ↔ (a ≡ b)
skill_key_beq_iff a b = ground arith

instance abbrev pub skill_key_eq : HasEq SkillKey
skill_key_eq = record { eqb = skill_key_beq; eqb_iff = skill_key_beq_iff }

pub data SkillBindingKind : Type 0 where
  catalog_only planning_runtime : SkillBindingKind

abbrev pub skill_binding_kind_beq : SkillBindingKind → SkillBindingKind → Bool
skill_binding_kind_beq catalog_only catalog_only = true
skill_binding_kind_beq planning_runtime planning_runtime = true
skill_binding_kind_beq _ _ = false

pub skill_binding_kind_beq_iff :
    (a b : SkillBindingKind) → (skill_binding_kind_beq a b ≡ true) ↔ (a ≡ b)
skill_binding_kind_beq_iff a b = ground arith

instance abbrev pub skill_binding_kind_eq : HasEq SkillBindingKind
skill_binding_kind_eq = record {
  eqb = skill_binding_kind_beq;
  eqb_iff = skill_binding_kind_beq_iff;
}

pub record SkillRuntimePin : Type 0 where
  pub skill_definition_id : Uuid
  pub skill_version_id : Uuid
  pub skill_activation_event_id : Uuid
  pub skill_activation_sequence : ℕ
  pub runtime_binding_sha256 : String

pub record ManifestEntry : Type 0 where
  pub skill_key : SkillKey
  pub version : String
  pub binding_kind : SkillBindingKind
  pub operation_bindings : Option (List SkillLeafBinding)
  pub runtime_binding_sha256 : Option String
  pub other_fields : String

unfoldable pub manifest_entry_beq : ManifestEntry → ManifestEntry → Bool
manifest_entry_beq a b =
    (a.skill_key == b.skill_key)
    && ((a.version == b.version)
        && ((a.binding_kind == b.binding_kind)
            && ((a.operation_bindings == b.operation_bindings)
                && ((a.runtime_binding_sha256 == b.runtime_binding_sha256)
                    && (a.other_fields == b.other_fields)))))

pub record SkillRuntimeManifest : Type 0 where
  pub manifest_id : String
  pub manifest_version : String
  pub entries : List ManifestEntry
  pub manifest_sha256 : String

abbrev incompatible : {A : Type 0} → String → Result A
incompatible message = err message

-- `self._entries[(key, semantic_version)]`, where the last entry of a key counts.
abbrev pub find_entry : List ManifestEntry → SkillKey → String → Option ManifestEntry
find_entry [] key version = none
find_entry (e ∷ es) key version = elim (find_entry es key version) [
  | some found ↦ some found
  | none ↦ if (e.skill_key == key) && (e.version == version) then some e else none
]

unfoldable pub get_skill : SkillRuntimeManifest → SkillKey → String → Result ManifestEntry
get_skill manifest key version = elim (find_entry manifest.entries key version) [
  | none ↦ incompatible "unsupported Skill key/version"
  | some entry ↦ ok entry
]

unfoldable pub supported_planning_bindings : SkillRuntimeManifest → List ManifestEntry
supported_planning_bindings manifest =
    select (λ e. e.binding_kind == planning_runtime) manifest.entries

-- `entry.operation_bindings or ()`
abbrev pub bindings_of : ManifestEntry → List SkillLeafBinding
bindings_of entry = elim entry.operation_bindings [ none ↦ [] | some bindings ↦ bindings ]

-- The tests of `validate_pin` on an entry.
unfoldable pub check_pin :
    SkillRuntimePin → PlanningOperation → SkillLeafBinding → ManifestEntry → Result ManifestEntry
check_pin pin operation actual_leaf entry =
    if entry.binding_kind != planning_runtime
    then incompatible "catalog-only Skill cannot be task-pinned"
    else if entry.runtime_binding_sha256 != some pin.runtime_binding_sha256
    then incompatible "runtime binding digest does not match pin"
    else elim (find_first (λ b. b.operation == operation) (bindings_of entry)) [
      | none ↦ incompatible "task operation is not supported"
      | some leaf ↦
          if actual_leaf != leaf
          then incompatible "actual leaf does not match packaged binding"
          else ok entry
    ]

unfoldable pub validate_pin :
    SkillRuntimeManifest
    → SkillRuntimePin
    → SkillKey
    → String
    → PlanningOperation
    → SkillLeafBinding
    → Result ManifestEntry
validate_pin manifest pin key version operation actual_leaf = do
  entry ← get_skill manifest key version
  check_pin pin operation actual_leaf entry
