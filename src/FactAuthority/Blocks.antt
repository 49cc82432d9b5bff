-- ===== src/FactAuthority/Blocks.antt =====
-- What keeps `verify_memory_candidate` of migrations/versions/0017_controlled_intake_revision.py from
-- the publication of a revision: unfinished tasks, and the state of the planning of the case.
use night_voyager.Base.{
  ltb, leb, is_none, ◌==◌, nat_eq, string_eq, option_eq, any, find_first, contains, list_eq, ℕ, ◌+◌,
  Bool, true, false, not, ◌&&◌, ◌||◌, Option, none, some, List, [], ◌∷◌,
}
use night_voyager.Base.Results.{Result, raise_if, ◌>>◌}
use night_voyager.Planning.Enums.{
  evidence_authority_eq, evidence_class_eq, redistribution_class_eq, country_eq, route_outcome_eq,
  RunState, run_state_eq, CaseState, case_state_eq,
}
use night_voyager.Planning.Models.{Uuid}
use night_voyager.Tasks.Models.{
  AgentTaskState, agent_task_state_eq, adapter_failure_code_eq, planning_operation_eq,
  adapter_id_eq, adapter_version_eq,
}
use night_voyager.Decision.Models.{ReviewAction, review_action_eq, decision_source_eq}
use night_voyager.Collaboration.Models.{
  FactKey, student_preferred_countries, student_intake, family_budget, fact_key_eq,
  memory_candidate_state_eq, verification_decision_eq,
}
use night_voyager.FactAuthority.Rows.{CaseRevisionRow, CaseRun, ReviewRow, CaseTask, CaseFacts}

-- `action='request_revision'` on this run at this revision
unfoldable pub is_request_of : ℕ → Uuid → ReviewRow → Bool
is_request_of revision run r =
    (r.case_revision == revision)
    && ((r.planning_run_id == run) && (r.action == ReviewAction.request_revision))

-- `request_review`; without a current run there is none
unfoldable pub request_review : ℕ → Option CaseRun → List ReviewRow → Option ReviewRow
request_review revision none reviews = none
request_review revision (some run) reviews = find_first (is_request_of revision run.id) reviews

-- `task.state IN ('queued','leased','running','waiting_review')`
unfoldable pub is_unfinished : AgentTaskState → Bool
is_unfinished AgentTaskState.queued = true
is_unfinished AgentTaskState.leased = true
is_unfinished AgentTaskState.running = true
is_unfinished AgentTaskState.waiting_review = true
is_unfinished _ = false

-- `task.result_planning_run_id=current_run.id`; where the result is null, the row is left out of the
-- `EXISTS`, as it is where the two are equal
abbrev is_result_of : Uuid → Option Uuid → Bool
is_result_of run none = true
is_result_of run (some result) = result == run

-- The run of the task awaits the revision that is asked for.
unfoldable pub is_awaited : ℕ → Option CaseRun → Option ReviewRow → CaseTask → Bool
is_awaited revision (some run) (some review) task =
    (task.case_revision == revision) && is_result_of run.id task.result_planning_run_id
is_awaited revision _ _ task = false

-- The review that asked for the successor of a run.
unfoldable pub is_frozen_review : CaseRun → Option Uuid → ReviewRow → Bool
is_frozen_review retired requested r =
    (some r.id == requested)
    && ((r.case_revision == retired.case_revision)
        && ((r.planning_run_id == retired.id) && (r.action == ReviewAction.request_revision)))

unfoldable pub is_successor_of : ℕ → CaseRun → List ReviewRow → CaseRevisionRow → Bool
is_successor_of revision retired reviews successor =
    (successor.content.revision == retired.case_revision + 1)
    && ((successor.superseded_planning_run_id == some retired.id)
        && (leb successor.content.revision revision
            && any (is_frozen_review retired successor.revision_requested_by_review_id) reviews))

-- A retired run that is the result of the task.
unfoldable pub is_retired_for :
    ℕ → CaseTask → List CaseRevisionRow → List ReviewRow → CaseRun → Bool
is_retired_for revision task revisions reviews retired =
    (some retired.id == task.result_planning_run_id)
    && ((retired.case_revision == task.case_revision)
        && ((retired.state == RunState.review_required)
            && (not retired.is_current
                && any (is_successor_of revision retired reviews) revisions)))

unfoldable pub is_retired : ℕ → CaseFacts → CaseTask → Bool
is_retired revision t task =
    ltb task.case_revision revision
    && any (is_retired_for revision task t.revisions t.reviews) t.runs

-- The task keeps the revision from being published.
unfoldable pub is_blocking : ℕ → Option CaseRun → CaseFacts → CaseTask → Bool
is_blocking revision run t task =
    is_unfinished task.state
    && not (
        (task.state == AgentTaskState.waiting_review)
        && (is_awaited revision run (request_review revision run t.reviews) task
            || is_retired revision t task))

-- `candidate.fact_key NOT IN (...)`
unfoldable pub is_unsupported_revision : FactKey → Bool
is_unsupported_revision key =
    not (contains key (student_preferred_countries ∷ family_budget ∷ student_intake ∷ []))

-- The tests on a current run, if there is one.
unfoldable pub check_run : ℕ → FactKey → CaseFacts → Option CaseRun → Result (Unit {0})
check_run revision key t none = raise_if (t.state == CaseState.planning) "NV003"
check_run revision key t (some run) =
    raise_if (is_none (request_review revision (some run) t.reviews)) "NV003"
    >> (raise_if (is_unsupported_revision key) "NV006" >> raise_if t.is_decided "NV003")

-- `current_run`
unfoldable pub current_run : CaseFacts → Option CaseRun
current_run t = find_first CaseRun.is_current t.runs

-- From the test of the tasks to that of the decision.
unfoldable pub check_publication : ℕ → FactKey → CaseFacts → Result (Unit {0})
check_publication revision key t =
    raise_if (any (is_blocking revision (current_run t) t) t.tasks) "NV014"
    >> check_run revision key t (current_run t)
