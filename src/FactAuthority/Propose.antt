-- ===== src/FactAuthority/Propose.antt =====
-- `propose_memory_candidate` of migrations/versions/0007_conversation_and_memory.py. The message is
-- one of the case.
use night_voyager.Base.{
  leb, if◌then◌else◌, ◌==◌, ◌!=◌, nat_eq, string_eq, option_eq, any, find_first, list_eq, ℕ, ◌+◌,
  String, Bool, true, false, not, ◌&&◌, ◌||◌, Option, none, some, ◌∷◌,
}
use night_voyager.Base.Results.{Result, ok, err, raise_if, ◌>>◌}
use night_voyager.Planning.Enums.{
  evidence_authority_eq, evidence_class_eq, redistribution_class_eq, country_eq, route_outcome_eq,
  run_state_eq, case_state_eq,
}
use night_voyager.Planning.Models.{Uuid}
use night_voyager.Collaboration.Models.{
  fact_key_eq, MemoryCandidateState, stale, expired, confirmed, rejected, memory_candidate_state_eq,
  confirm, reject, verification_decision_eq, FactProposal, fact_key_of,
}
use night_voyager.Leases.Calls.{is_sha256}
use night_voyager.TimelineAuthority.Rows.{IdempotencyRow, Caller, is_participant}
use night_voyager.TimelineAuthority.Gate.{is_prior}
use night_voyager.FactAuthority.Rows.{
  MessageRow, CandidateRow, CandidateVerification, CaseFacts, has_collaboration_context,
}
use night_voyager.FactAuthority.Values.{is_fact_refused}

-- The parameters of a proposal.
pub record Proposal : Type 0 where
  pub message : Uuid
  pub candidate : Uuid
  pub case_revision : ℕ
  pub value : FactProposal
  pub value_sha256 : String
  pub request_sha256 : String
  pub key_sha256 : String

-- What a call leaves and the state of the candidate that it returns; `true` for an earlier answer.
abbrev pub Proposed : Type 0
Proposed = CaseFacts × (CandidateRow × (MemoryCandidateState × Bool))

unfoldable pub is_proposal_invalid : Proposal → Bool
is_proposal_invalid p =
    (p.case_revision == 0)
    || (not (is_sha256 p.value_sha256)
        || (not (is_sha256 p.request_sha256) || not (is_sha256 p.key_sha256)))

-- `selected.case_revision<>selected_case.current_revision`, and no answer where it is null
abbrev is_behind : ℕ → Option ℕ → Bool
is_behind revision none = false
is_behind revision (some current) = revision != current

-- `projected_state`
unfoldable pub projected_state :
    Option CandidateVerification → CandidateRow → Option ℕ → ℕ → MemoryCandidateState
projected_state (some v) c current now = elim v.decision [ confirm ↦ confirmed | reject ↦ rejected ]
projected_state none c current now =
    if is_behind c.case_revision current
    then stale
    else if leb c.expires_at now
    then expired
    else MemoryCandidateState.pending

abbrev pub is_verification_of_candidate : Uuid → CandidateVerification → Bool
is_verification_of_candidate candidate v = v.candidate_id == candidate

abbrev candidate_row : Caller → Proposal → ℕ → CandidateRow
candidate_row caller p now = record {
  id = p.candidate;
  case_revision = p.case_revision;
  message_event_id = p.message;
  subject_actor_id = caller.actor;
  subject_role = caller.role;
  proposing_actor_id = caller.actor;
  proposing_role = caller.role;
  proposed_value = p.value;
  value_sha256 = p.value_sha256;
  request_sha256 = p.request_sha256;
  created_at = now;
  expires_at = now + 604800000;
}

-- The test before 'source message proposal mismatch'.
unfoldable pub is_other_proposal : Caller → Proposal → CandidateRow → Bool
is_other_proposal caller p c =
    (c.case_revision != p.case_revision)
    || ((fact_key_of c.proposed_value != fact_key_of p.value)
        || ((c.value_sha256 != p.value_sha256)
            || ((c.request_sha256 != p.request_sha256)
                || ((c.proposing_actor_id != caller.actor) || (c.proposing_role != caller.role)))))

abbrev state_of : CandidateRow → ℕ → CaseFacts → MemoryCandidateState
state_of c now t =
    projected_state (find_first (is_verification_of_candidate c.id) t.verifications) c
      t.current_revision now

-- The answer to a request that was made before.
unfoldable pub proposal_repeated :
    Proposal → IdempotencyRow → ℕ → CaseFacts → Option CandidateRow → Result Proposed
proposal_repeated p prior now t none = err "P0001"
proposal_repeated p prior now t (some c) = ok (t, (c, (state_of c now t, true)))

-- The last `INSERT` and the answer.
unfoldable pub proposal_recorded : Caller → Proposal → CandidateRow → ℕ → CaseFacts → Proposed
proposal_recorded caller p c now t = (
  record t {
    idempotency =
        record {
          actor_id = caller.actor;
          operation = "memory_candidate_propose";
          key_sha256 = p.key_sha256;
          request_sha256 = p.request_sha256;
          response_kind = "memory_candidate";
          response_id = c.id;
          created_at = now;
        }
        ∷ t.idempotency;
  },
  (c, (state_of c now t, false)),
)

unfoldable pub proposal_on :
    Caller → Proposal → ℕ → CaseFacts → Option CandidateRow → Result Proposed
proposal_on caller p now t (some c) =
    raise_if (is_other_proposal caller p c) "NV008" >> ok (proposal_recorded caller p c now t)
proposal_on caller p now t none = ok (
    proposal_recorded caller p (candidate_row caller p now) now
      (record t { candidates = candidate_row caller p now ∷ t.candidates }))

abbrev is_message_of : Caller → MessageRow → Bool
is_message_of caller m = (m.actor_id == caller.actor) && (m.actor_role == caller.role)

abbrev pub is_own_message : Caller → Option MessageRow → Bool
is_own_message caller none = false
is_own_message caller (some m) = is_message_of caller m

unfoldable pub proposal_new : Caller → Proposal → ℕ → CaseFacts → Result Proposed
proposal_new caller p now t =
    raise_if
      (not (is_own_message caller (find_first (λ m. m.id == p.message) t.messages))
        || not ((caller.role == "student") || (caller.role == "parent")))
      "NV007"
    >> (raise_if (t.current_revision != some p.case_revision) "NV003"
        >> (raise_if (not (any (is_participant t.case_id caller.actor caller.role) t.participants))
              "NV007"
            >> proposal_on caller p now t
                (find_first (λ c. c.message_event_id == p.message) t.candidates)))

unfoldable pub proposal_unless :
    Caller → Proposal → ℕ → CaseFacts → Option IdempotencyRow → Result Proposed
proposal_unless caller p now t none = proposal_new caller p now t
proposal_unless caller p now t (some prior) =
    raise_if
      ((prior.request_sha256 != p.request_sha256) || (prior.response_kind != "memory_candidate"))
      "NV008"
    >> proposal_repeated p prior now t (find_first (λ c. c.id == prior.response_id) t.candidates)

-- `propose_memory_candidate`
unfoldable pub propose_memory_candidate :
    (String → Bool) → Caller → Proposal → ℕ → CaseFacts → Result Proposed
propose_memory_candidate unsafe caller p now t =
    raise_if (is_proposal_invalid p) "NV006"
    >> (raise_if (not (has_collaboration_context caller)) "NV007"
        >> (raise_if (is_fact_refused unsafe caller.role p.value) "NV006"
            >> proposal_unless caller p now t (
                find_first (is_prior "memory_candidate_propose" caller.actor p.key_sha256)
                  t.idempotency)))
