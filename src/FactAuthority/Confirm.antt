-- ===== src/FactAuthority/Confirm.antt =====
-- The tests of `verify_memory_candidate` of migrations/versions/0017_controlled_intake_revision.py, in
-- their order, and the whole function.
use night_voyager.Base.{
  ltb, leb, if◌then◌else◌, ◌==◌, ◌!=◌, nat_eq, string_eq, option_eq, any, find_first, count_if,
  list_eq, ℕ, ◌+◌, String, Bool, true, false, not, ◌||◌, Option, none, some,
}
use night_voyager.Base.Results.{Result, ok, err, raise_if, ◌>>◌}
use night_voyager.Planning.Enums.{
  evidence_authority_eq, evidence_class_eq, redistribution_class_eq, country_eq, route_outcome_eq,
  run_state_eq, CaseState, case_state_eq,
}
use night_voyager.Planning.Models.{Uuid}
use night_voyager.Collaboration.Models.{
  fact_key_eq, memory_candidate_state_eq, VerificationDecision, verification_decision_eq,
  fact_key_of,
}
use night_voyager.TimelineAuthority.Rows.{IdempotencyRow, Caller, is_participant}
use night_voyager.TimelineAuthority.Gate.{is_prior}
use night_voyager.FactAuthority.Rows.{
  CandidateRow, CandidateVerification, CaseRevisionRow, CaseRun, CaseFacts,
  has_collaboration_context,
}
use night_voyager.FactAuthority.Values.{is_fact_refused}
use night_voyager.FactAuthority.Propose.{is_verification_of_candidate}
use night_voyager.FactAuthority.Blocks.{current_run, check_publication}
use night_voyager.FactAuthority.Verify.{
  Verifying, Verified, is_verifying_invalid, is_projection_unsafe, check_intake,
  verification_row_of, rejected_by, confirmed_by,
}

-- What the function reads beside the rows: the tests of texts, the identity of the synthetic pack,
-- and the outcome of `assert_controlled_intake_source`.
pub record Checks : Type 0 where
  pub unsafe_reason : String → Bool
  pub unsafe_value : String → Bool
  pub baseline_pack : Uuid
  pub source : Result (Unit {0})

abbrev pub advisor_of : Uuid → Caller → Caller
advisor_of actor session = record session { actor = actor; role = "advisor" }

abbrev pub is_revision : ℕ → CaseRevisionRow → Bool
is_revision revision r = r.content.revision == revision

-- From the test of the revision's row to the writes.
unfoldable pub publish :
    Checks
    → Caller
    → Verifying
    → Uuid
    → CandidateRow
    → ℕ
    → CaseFacts
    → Option CaseRevisionRow
    → Result Verified
publish checks caller v fact c now t none = err "NV003"
publish checks caller v fact c now t (some row) =
    raise_if (is_projection_unsafe checks.unsafe_value row.content) "NV006"
    >> (check_intake checks.baseline_pack checks.source row.content (current_run t) c.proposed_value
        >> ok (
          confirmed_by caller v fact c row.content now t,
          (verification_row_of caller v (some fact) (some (v.expected_revision + 1)), false),
        ))

unfoldable pub confirm_with :
    Checks → Caller → Verifying → CandidateRow → ℕ → CaseFacts → Option Uuid → Result Verified
confirm_with checks caller v c now t none = err "NV006"
confirm_with checks caller v c now t (some fact) =
    check_publication v.expected_revision (fact_key_of c.proposed_value) t
    >> publish checks caller v fact c now t
        (find_first (is_revision v.expected_revision) t.revisions)

unfoldable pub decide_candidate :
    Checks → Caller → Verifying → CandidateRow → ℕ → CaseFacts → Result Verified
decide_candidate checks caller v c now t =
    if v.decision == VerificationDecision.reject
    then ok (rejected_by caller v now t, (verification_row_of caller v none none, false))
    else confirm_with checks caller v c now t v.fact

-- From the count of the current runs to the check of the value.
unfoldable pub check_candidate :
    Checks → Caller → Verifying → CandidateRow → ℕ → CaseFacts → Result (Unit {0})
check_candidate checks caller v c now t =
    raise_if (ltb 1 (count_if CaseRun.is_current t.runs)) "P0001"
    >> (raise_if (not (any (is_participant t.case_id caller.actor "advisor") t.participants))
          "NV007"
        >> (raise_if (any (is_verification_of_candidate v.candidate) t.verifications) "NV012"
            >> (raise_if
                  ((c.case_revision != v.expected_revision)
                    || (t.current_revision != some v.expected_revision))
                  "NV003"
                >> (raise_if (leb c.expires_at now) "NV013"
                    >> (raise_if
                          (not ((t.state == CaseState.intake) || (t.state == CaseState.planning)))
                          "NV003"
                        >> raise_if
                            (is_fact_refused checks.unsafe_value c.subject_role c.proposed_value)
                            "NV006")))))

unfoldable pub verify_found :
    Checks → Caller → Verifying → ℕ → CaseFacts → Option CandidateRow → Result Verified
verify_found checks caller v now t none = err "NV007"
verify_found checks caller v now t (some c) =
    check_candidate checks caller v c now t >> decide_candidate checks caller v c now t

-- The answer to a request that was made before.
unfoldable pub verify_answered : CaseFacts → Option CandidateVerification → Result Verified
verify_answered t none = err "P0001"
verify_answered t (some existing) = ok (t, (existing, true))

unfoldable pub verify_unless :
    Checks → Caller → Verifying → ℕ → CaseFacts → Option IdempotencyRow → Result Verified
verify_unless checks caller v now t none =
    verify_found checks caller v now t (find_first (λ c. c.id == v.candidate) t.candidates)
verify_unless checks caller v now t (some prior) =
    raise_if
      ((prior.request_sha256 != v.request_sha256)
        || (prior.response_kind != "memory_candidate_verification"))
      "NV008"
    >> verify_answered t (find_first (λ x. x.id == prior.response_id) t.verifications)

-- `verify_memory_candidate`, which sets the role to that of an advisor
unfoldable pub verify_memory_candidate :
    Checks → Uuid → Caller → Verifying → ℕ → CaseFacts → Result Verified
verify_memory_candidate checks actor session v now t =
    let caller = advisor_of actor session in
    raise_if (is_verifying_invalid checks.unsafe_reason v) "NV006"
    >> (raise_if (not (has_collaboration_context caller)) "NV007"
        >> verify_unless checks caller v now t
            (find_first (is_prior "memory_candidate_verify" actor v.key_sha256) t.idempotency))
