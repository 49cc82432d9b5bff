-- ===== src/FactAuthority/Steps.antt =====
-- The calls that succeed on the facts of a case, as a relation. What other functions write in
-- between does not touch the facts.
use night_voyager.Base.{
  nat_eq, string_eq, option_eq, contains, list_eq, ℕ, String, ◌≡◌, Bool, false, some, [], ◌∷◌, map,
}
use night_voyager.Base.Results.{ok}
use night_voyager.Planning.Enums.{
  evidence_authority_eq, evidence_class_eq, redistribution_class_eq, country_eq, route_outcome_eq,
  run_state_eq, case_state_eq,
}
use night_voyager.Planning.Models.{Uuid, StudentCaseRevision}
use night_voyager.Collaboration.Models.{
  fact_key_eq, MemoryCandidateState, memory_candidate_state_eq, verification_decision_eq,
}
use night_voyager.TimelineAuthority.Rows.{Caller}
use night_voyager.FactAuthority.Rows.{
  CandidateRow, CandidateVerification, CaseRevisionRow, CaseFacts,
}
use night_voyager.FactAuthority.Propose.{Proposal, propose_memory_candidate}
use night_voyager.FactAuthority.Verify.{Verifying}
use night_voyager.FactAuthority.Confirm.{Checks, verify_memory_candidate}

-- What the rows of a confirmation stay out of.
pub record Keeps (t u : CaseFacts) : Type 0 where
  pub current : u.current_revision ≡ t.current_revision
  pub revisions : u.revisions ≡ t.revisions
  pub facts : u.facts ≡ t.facts
  pub refs : u.refs ≡ t.refs
  pub verifications : u.verifications ≡ t.verifications

-- The id is of no fact yet.
abbrev pub IsUnused : Uuid → CaseFacts → Type 0
IsUnused fact t = contains fact (map (λ f. f.id) t.facts) ≡ false

-- `app.confirmed_facts` refuses an id that it has, by its primary key.
pub data Step (t : CaseFacts) : CaseFacts → Type 0 where
  proposes :
      {u : CaseFacts} {answer : CandidateRow × (MemoryCandidateState × Bool)}
      (unsafe : String → Bool) (caller : Caller) (p : Proposal) (now : ℕ)
      → propose_memory_candidate unsafe caller p now t ≡ ok (u, answer)
      → Step t u
  verifies :
      {u : CaseFacts} {answer : CandidateVerification × Bool} (checks : Checks) (actor : Uuid)
      (session : Caller) (v : Verifying) (now : ℕ)
      → ((fact : Uuid) → v.fact ≡ some fact → IsUnused fact t)
      → verify_memory_candidate checks actor session v now t ≡ ok (u, answer)
      → Step t u
  others : {u : CaseFacts} → Keeps t u → Step t u

-- A case at its first revision.
pub record IsFirst (base : StudentCaseRevision) (t : CaseFacts) : Type 0 where
  pub current : t.current_revision ≡ some base.revision
  pub revisions : map CaseRevisionRow.content t.revisions ≡ base ∷ []
  pub facts : t.facts ≡ []
  pub refs : t.refs ≡ []
  pub verifications : t.verifications ≡ []
  pub version : base.schema_version ≡ 1

pub data Reach (base : StudentCaseRevision) : CaseFacts → Type 0 where
  initial : {t : CaseFacts} → IsFirst base t → Reach base t
  next : {t u : CaseFacts} → Reach base t → Step t u → Reach base u
