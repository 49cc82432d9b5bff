-- ===== src/FactAuthority/Invariant.antt =====
-- What holds of the facts of a case at every moment.
use night_voyager.FactAuthority.Refs.{ref_at, IsUpTo, next_refs, next_refs-IsUpTo, next_refs-latest}
use night_voyager.FactAuthority.Effects.{Step-Effect}
use night_voyager.FactAuthority.Proposals.{Effect, keeps, rejects, confirms}
use mathlib.Core.Path.{subst}
use night_voyager.Base.{
  eq_of_some, ◌==◌, nat_eq, string_eq, option_eq, any, select, find_first, All, contains, list_eq,
  ℕ, ◌+◌, ◌≡◌, refl, sym, ap, ◌∙◌, Bool, false, Option, some, List, [], ◌∷◌, map, arith,
}
use night_voyager.Base.ListLaws.{Unique}
use night_voyager.Planning.Enums.{
  evidence_authority_eq, evidence_class_eq, redistribution_class_eq, country_eq, route_outcome_eq,
  run_state_eq, case_state_eq,
}
use night_voyager.Planning.Models.{Uuid, StudentCaseRevision}
use night_voyager.Collaboration.Models.{
  FactKey, fact_key_eq, memory_candidate_state_eq, confirm, reject, verification_decision_eq,
  fact_key_of,
}
use night_voyager.Collaboration.Policy.{apply_confirmed_fact}
use night_voyager.TimelineAuthority.Rows.{Caller}
use night_voyager.FactAuthority.Rows.{
  CandidateRow, CandidateVerification, FactRow, CaseRevisionRow, CaseFacts,
}
use night_voyager.FactAuthority.Propose.{is_verification_of_candidate}
use night_voyager.FactAuthority.Verify.{
  Verifying, prior_fact, id_of_fact, version_of_fact, rejected_by, fact_row, next_revision,
  confirmed_by,
}
use night_voyager.FactAuthority.Confirm.{is_revision}
use night_voyager.FactAuthority.Steps.{Keeps, IsUnused, IsFirst, Reach, initial, next}
use night_voyager.FactAuthority.Chain.{has_key, IsChained, prior_fact-first, version-count_if}
use night_voyager.FactAuthority.History.{
  replay, history, replay-version, next_revision-apply, current-replay,
}

abbrev is_confirming : CandidateVerification → Bool
is_confirming x = x.decision == confirm

-- The ids of the facts that the confirmations name.
abbrev pub results : List CandidateVerification → List (Option Uuid)
results xs = map CandidateVerification.result_fact_id (select is_confirming xs)

abbrev pub candidates_of : List CandidateVerification → List Uuid
candidates_of xs = map CandidateVerification.candidate_id xs

-- The revisions are the history of the facts, the current one refers to the latest facts, each fact
-- has its confirmation, and no candidate is verified twice.
pub record IsReplayed (base : StudentCaseRevision) (t : CaseFacts) : Type 0 where
  pub current : t.current_revision ≡ some (replay base t.facts).revision
  pub rows : map CaseRevisionRow.content t.revisions ≡ history base t.facts
  pub chained : IsChained t.facts
  pub latest_refs :
      (key : FactKey)
      → ref_at (replay base t.facts).revision key t.refs
        ≡ id_of_fact (find_first (has_key key) t.facts)
  pub up_to : All (IsUpTo (replay base t.facts).revision) t.refs
  pub confirmed_each : results t.verifications ≡ map (λ f. some f.id) t.facts
  pub once : Unique (candidates_of t.verifications)
  pub version : base.schema_version ≡ 1

unverified-candidates :
    (id : Uuid) (xs : List CandidateVerification)
    → any (is_verification_of_candidate id) xs ≡ false
    → contains id (candidates_of xs) ≡ false
unverified-candidates id [] h = refl
unverified-candidates id (x ∷ xs) h =
    ground (arith, unverified-candidates id xs (ground (arith, h)))

initial-IsReplayed :
    (base : StudentCaseRevision) (t : CaseFacts) → IsFirst base t → IsReplayed base t
unfolding replay history
initial-IsReplayed base t v = record {
  current = v.current ∙ ap (λ fs. some (replay base fs).revision) (sym v.facts);
  rows = v.revisions ∙ ap (history base) (sym v.facts);
  chained = subst IsChained (sym v.facts) tt;
  latest_refs = λ key.
      ap (ref_at (replay base t.facts).revision key) v.refs
      ∙ ap (λ fs. id_of_fact (find_first (has_key key) fs)) (sym v.facts);
  up_to = subst (All (IsUpTo (replay base t.facts).revision)) (sym v.refs) tt;
  confirmed_each = ap results v.verifications ∙ ap (map (λ f. some f.id)) (sym v.facts);
  once = subst (λ xs. Unique (candidates_of xs)) (sym v.verifications) tt;
  version = v.version;
}

Keeps-IsReplayed :
    (base : StudentCaseRevision) {t u : CaseFacts}
    → Keeps t u
    → IsReplayed base t
    → IsReplayed base u
Keeps-IsReplayed base {t} {u} kept v = record {
  current = kept.current ∙ v.current ∙ ap (λ fs. some (replay base fs).revision) (sym kept.facts);
  rows =
      ap (map CaseRevisionRow.content) kept.revisions ∙ v.rows ∙ ap (history base) (sym kept.facts);
  chained = subst IsChained (sym kept.facts) v.chained;
  latest_refs = λ key.
      ap (λ fs. ref_at (replay base fs).revision key u.refs) kept.facts
      ∙ ap (ref_at (replay base t.facts).revision key) kept.refs
      ∙ v.latest_refs key
      ∙ ap (λ fs. id_of_fact (find_first (has_key key) fs)) (sym kept.facts);
  up_to =
      subst (All (IsUpTo (replay base u.facts).revision)) (sym kept.refs)
        (subst (λ fs. All (IsUpTo (replay base fs).revision) t.refs) (sym kept.facts) v.up_to);
  confirmed_each =
      ap results kept.verifications ∙ v.confirmed_each ∙ ap (map (λ f. some f.id)) (sym kept.facts);
  once = subst (λ xs. Unique (candidates_of xs)) (sym kept.verifications) v.once;
  version = v.version;
}

rejected-IsReplayed :
    (base : StudentCaseRevision) (caller : Caller) (x : Verifying) (now : ℕ) (t : CaseFacts)
    → any (is_verification_of_candidate x.candidate) t.verifications ≡ false
    → x.decision ≡ reject
    → IsReplayed base t
    → IsReplayed base (rejected_by caller x now t)
unfolding rejected_by
rejected-IsReplayed base caller x now t open_here rejecting v = record {
  current = v.current;
  rows = v.rows;
  chained = v.chained;
  latest_refs = v.latest_refs;
  up_to = v.up_to;
  confirmed_each = rw rejecting v.confirmed_each;
  once = (unverified-candidates x.candidate t.verifications open_here, v.once);
  version = v.version;
}

confirmed-IsReplayed :
    (base : StudentCaseRevision) (caller : Caller) (x : Verifying) (fact : Uuid) (c : CandidateRow)
    (row : CaseRevisionRow) (now : ℕ) (t : CaseFacts)
    → any (is_verification_of_candidate x.candidate) t.verifications ≡ false
    → x.decision ≡ confirm
    → t.current_revision ≡ some x.expected_revision
    → find_first (is_revision x.expected_revision) t.revisions ≡ some row
    → IsUnused fact t
    → IsReplayed base t
    → IsReplayed base (confirmed_by caller x fact c row.content now t)
unfolding confirmed_by replay history apply_confirmed_fact
confirmed-IsReplayed base caller x fact c row now t open_here confirming same found unused v =
    let at : (replay base t.facts).revision ≡ x.expected_revision =
      eq_of_some (sym v.current ∙ same) in
    let content : row.content ≡ replay base t.facts =
      current-replay base t.facts t.revisions x.expected_revision v.rows at found in
    let made : next_revision x c row.content
        ≡ apply_confirmed_fact (replay base t.facts) c.proposed_value =
      ap (next_revision x c) content
      ∙ next_revision-apply x c (replay base t.facts) (replay-version base t.facts ∙ v.version)
          at in
    let latest_fact : prior_fact (fact_key_of c.proposed_value) t.facts
        ≡ find_first (has_key (fact_key_of c.proposed_value)) t.facts =
      prior_fact-first (fact_key_of c.proposed_value) t.facts v.chained in
    let f : FactRow =
      fact_row caller x fact c (prior_fact (fact_key_of c.proposed_value) t.facts) in
    let chain : IsChained (f ∷ t.facts) = (
      ap id_of_fact latest_fact,
      ap (λ f. version_of_fact f + 1) latest_fact
          ∙ ap (λ n. n + 1) (version-count_if (fact_key_of c.proposed_value) t.facts v.chained),
      unused,
      v.chained,
    ) in
    record {
      current = ap (λ r. some r.revision) made;
      rows =
          ap (λ r. r ∷ map CaseRevisionRow.content t.revisions) made
          ∙ ap (λ rs. apply_confirmed_fact (replay base t.facts) c.proposed_value ∷ rs) v.rows;
      chained = chain;
      latest_refs = λ key.
          subst
            (λ n.
              ref_at ((replay base t.facts).revision + 1) key (next_refs (n + 1) f t.facts t.refs)
              ≡ id_of_fact (find_first (has_key key) (f ∷ t.facts)))
            at (next_refs-latest (replay base t.facts).revision key f t.facts t.refs chain v.up_to);
      up_to =
          subst
            (λ n.
              All (IsUpTo ((replay base t.facts).revision + 1))
                (next_refs (n + 1) f t.facts t.refs))
            at (next_refs-IsUpTo (replay base t.facts).revision f t.facts t.refs v.up_to);
      confirmed_each = rw confirming (ap (λ ids. some fact ∷ ids) v.confirmed_each);
      once = (unverified-candidates x.candidate t.verifications open_here, v.once);
      version = v.version;
    }

Effect-IsReplayed :
    (base : StudentCaseRevision) {t u : CaseFacts}
    → Effect t u
    → IsReplayed base t
    → IsReplayed base u
Effect-IsReplayed base (keeps kept) v = Keeps-IsReplayed base kept v
Effect-IsReplayed base {t} (rejects caller x now open_here rejecting) v =
    rejected-IsReplayed base caller x now t open_here rejecting v
Effect-IsReplayed base {t} (confirms caller x fact c row now open_here confirming same found unused)
      v =
    confirmed-IsReplayed base caller x fact c row now t open_here confirming same found unused v

-- After any calls that succeed on a case, in any order, the current revision is what the policy's
-- `apply_confirmed_fact` makes of the first one with the confirmed facts, from the oldest to the
-- latest, and the rows of the revisions are the steps on the way; each fact supersedes the latest
-- one of its key and its version counts them; the current revision refers to the latest fact of
-- each key; each fact has the confirmation of one candidate; and no candidate is verified twice.
pub Reach-IsReplayed :
    {base : StudentCaseRevision} {t : CaseFacts} → Reach base t → IsReplayed base t
Reach-IsReplayed {base} {t} (initial first_here) = initial-IsReplayed base t first_here
Reach-IsReplayed {base} (next reached step) =
    Effect-IsReplayed base (Step-Effect step) (Reach-IsReplayed reached)
