-- ===== src/Tasks/Payload.antt =====
-- `validate_adapter_payload` of tasks/policy.py. What stands outside the sources is a parameter: the
-- bytes and their size, `json.loads` of the decoded bytes, and pydantic's validation of the two
-- input models. So is the frozen baseline, which is loaded from a file. `AdapterPayloadError` is
-- its code; a missing key that no handler catches is the error "KeyError".
use Prim.Native.Char.{code}
use night_voyager.Base.{
  ltb, if◌then◌else◌, ◌==◌, ◌!=◌, nat_eq, string_eq, option_eq, length, any, select, is_empty,
  contains, dedup, is_subset, list_eq, ℕ, ◌+◌, String, Bool, false, not, ◌||◌, Option, none, some,
  List, [], ◌∷◌, map,
}
use night_voyager.Base.Results.{Result, ok, err, ◌>>=◌}
use night_voyager.Base.Order.{sorted_by}
use night_voyager.Planning.Enums.{
  accepted_synthetic_demo, externally_verified, evidence_authority_eq, evidence_class_eq,
  redistribution_class_eq, country_eq, country_value, route_outcome_eq, run_state_eq, case_state_eq,
}
use night_voyager.Planning.Models.{EvidenceRef, synthetic, governed_mixed, PlanningInput}
use night_voyager.Planning.MixedBaseline.{validate_governed_mixed_payload_baseline}
use night_voyager.Tasks.Models.{
  agent_task_state_eq, adapter_failure_code_eq, generate_planning_run_v1, planning_operation_eq,
  adapter_id_eq, adapter_version_eq, runtime_policy,
}
use night_voyager.Tasks.Adapter.{
  PlanningAdapterRequest, AdapterPayload, SkillLeafBinding, leaf_eq, make_leaf_binding,
}
use night_voyager.Tasks.Json.{
  Json, Items, Members, equals_one, get_member, as_object, as_array, as_text, items_length,
  all_objects, texts_of,
}

-- What the payload check calls. Both validations give an input of their own class.
pub record PayloadReader (Bytes : Type 0) : Type 0 where
  pub size : Bytes → ℕ
  pub loads : Bytes → Option Json
  pub model_validate : Members → Option PlanningInput
  pub model_validate_json : Bytes → Option PlanningInput
  pub baseline : PlanningInput

-- `APPROVED_COUNTRIES`
abbrev pub approved_countries : List String
approved_countries = "australia" ∷ "japan" ∷ "malaysia" ∷ []

-- The bytes of a character in UTF-8, and of a text. A lone surrogate, whose encoding raises, is
-- not told apart.
abbrev utf8_width : ℕ → ℕ
utf8_width c = if ltb c 128 then 1 else if ltb c 2048 then 2 else if ltb c 65_536 then 3 else 4

abbrev pub utf8_length : String → ℕ
utf8_length String.[] = 0
utf8_length (String.◌∷◌ c s) = utf8_width (code c) + utf8_length s

-- The object that the bytes hold.
unfoldable pub read_object : {Bytes : Type 0} → PayloadReader Bytes → Bytes → Result Members
read_object reader payload =
    if ltb runtime_policy.max_payload_bytes (reader.size payload)
    then err "oversize"
    else elim (as_object (reader.loads payload)) [ none ↦ err "invalid_schema" | some raw ↦ ok raw ]

abbrev has_version_one : Option Json → Bool
has_version_one none = false
has_version_one (some j) = equals_one j

abbrev check_evidence : Members → Result (Unit {0})
check_evidence raw = elim (as_array (get_member "evidence" raw)) [
  | none ↦ err "invalid_schema"
  | some items ↦
      if not (all_objects items)
      then err "invalid_schema"
      else if ltb runtime_policy.max_evidence_refs (items_length items)
      then err "evidence_limit"
      else ok tt
]

abbrev check_narrative : Members → Result (Unit {0})
check_narrative raw = elim (as_text (get_member "narrative" raw)) [
  | none ↦ ok tt
  | some narrative ↦
      if ltb runtime_policy.max_narrative_bytes (utf8_length narrative)
      then err "narrative_oversize"
      else ok tt
]

-- The texts of `preferred_countries`, which must all be texts, sorted, unique and approved.
abbrev country_scope : Items → Result (List String)
country_scope items =
    let texts = texts_of items in
    if is_empty texts
      || ((length texts != items_length items)
          || ((texts != sorted_by (λ s. s) (dedup texts))
              || not (is_subset texts approved_countries)))
    then err "country_scope_invalid"
    else ok texts

abbrev check_countries : Members → Result (List String)
check_countries raw = elim (as_object (get_member "case" raw)) [
  | none ↦ err "invalid_schema"
  | some case_value ↦ elim (as_object (get_member "student" case_value)) [
    | none ↦ err "invalid_schema"
    | some student ↦ elim (as_array (get_member "preferred_countries" student)) [
      | none ↦ err "country_scope_invalid"
      | some items ↦ country_scope items
    ]
  ]
]

-- The tests on the raw object.
unfoldable pub check_raw : Members → Result (Unit {0})
check_raw raw =
    if not (has_version_one (get_member "schema_version" raw))
    then err "invalid_schema"
    else do _ ← check_evidence raw; _ ← check_narrative raw; _ ← check_countries raw; ok tt

-- The leaf binding that is given, or that of the request's operation and the outcome's adapter.
abbrev leaf_of :
    {Bytes : Type 0}
    → AdapterPayload Bytes
    → PlanningAdapterRequest
    → Option SkillLeafBinding
    → Result SkillLeafBinding
leaf_of outcome request (some binding) = ok binding
leaf_of outcome request none =
    elim (make_leaf_binding request.operation outcome.adapter_id outcome.adapter_version) [
      | err _ ↦ err "invalid_schema"
      | ok binding ↦ ok binding
    ]

unfoldable pub check_leaf :
    {Bytes : Type 0}
    → AdapterPayload Bytes
    → PlanningAdapterRequest
    → Option SkillLeafBinding
    → Result (Unit {0})
check_leaf outcome request given = do
  binding ← leaf_of outcome request given
  if (binding.operation != request.operation)
        || ((outcome.adapter_id != binding.adapter_id)
            || (outcome.adapter_version != binding.adapter_version))
      then err "invalid_schema"
      else ok tt

unfoldable pub read_input :
    {Bytes : Type 0}
    → PayloadReader Bytes
    → PlanningAdapterRequest
    → Members
    → Bytes
    → Result PlanningInput
read_input reader request raw payload =
    let validated =
      if request.operation == generate_planning_run_v1
      then reader.model_validate raw
      else reader.model_validate_json payload in
    elim validated [ none ↦ err "invalid_schema" | some i ↦ ok i ]

-- The pins of the request that an input must have.
unfoldable pub pins_differ : PlanningAdapterRequest → PlanningInput → Bool
pins_differ r i =
    (i.organization_id != r.organization_id)
    || ((i.case.organization_id != r.organization_id)
        || ((i.case.case_id != r.case_id)
            || ((i.case.revision != r.case_revision)
                || ((i.source_pack.organization_id != r.organization_id)
                    || ((i.source_pack.pack_id != r.source_pack_id)
                        || ((i.source_pack.version != r.source_pack_version)
                            || (any (λ e. e.organization_id != r.organization_id) i.evidence
                                || (any (λ c. c.organization_id != r.organization_id) i.costs
                                    || any (λ k. k.organization_id != r.organization_id)
                                        i.rankings))))))))

unfoldable pub scope_differs : PlanningInput → Bool
scope_differs i =
    let countries = map country_value i.case.student.preferred_countries in
    is_empty countries
    || (not (is_subset countries approved_countries)
        || (any (λ c. not (contains (country_value c.country) countries)) i.costs
            || any (λ k. not (contains (country_value k.country) countries)) i.rankings))

-- `len(external) == 1 and external[0].claim == "australia_program_fit"`
abbrev pub one_external : List EvidenceRef → Bool
one_external (e ∷ []) = e.claim == "australia_program_fit"
one_external _ = false

unfoldable pub check_authority : PlanningInput → PlanningInput → Result (Unit {0})
check_authority baseline i = elim i.kind [
  | synthetic ↦
      if any (λ e. e.authority != accepted_synthetic_demo) i.evidence
      then err "fallback_authority"
      else ok tt
  | governed_mixed ↦
      if not (one_external (select (λ e. e.authority == externally_verified) i.evidence))
      then err "fallback_authority"
      else elim (validate_governed_mixed_payload_baseline baseline i) [
        | ok _ ↦ ok tt
        | err message ↦ if message == "KeyError" then err "KeyError" else err "baseline_drift"
      ]
]

-- The tests on the validated input.
unfoldable pub check_input :
    PlanningInput → PlanningAdapterRequest → PlanningInput → Result PlanningInput
check_input baseline request i =
    if pins_differ request i
    then err "pin_mismatch"
    else if scope_differs i
    then err "country_scope_invalid"
    else check_authority baseline i >>= λ _. ok i

unfoldable pub validate_adapter_payload :
    {Bytes : Type 0}
    → PayloadReader Bytes
    → AdapterPayload Bytes
    → PlanningAdapterRequest
    → Option SkillLeafBinding
    → Result PlanningInput
validate_adapter_payload reader outcome request given = do
  raw ← read_object reader outcome.payload
  _ ← check_raw raw
  _ ← check_leaf outcome request given
  i ← read_input reader request raw outcome.payload
  check_input reader.baseline request i
