-- ===== src/Tests/Leases.antt =====
-- A task that one worker claims and starts, that another reclaims after a minute, and whose last
-- worker finalizes it.
use night_voyager.Leases.Failures.{IsSettled, report_failure, report_failure-IsSettled}
use night_voyager.Base.{length, ℕ, String, ◌≡◌, refl, true, false, none, some, List, [], ◌∷◌}
use night_voyager.Base.Results.{ok}
use night_voyager.Tasks.Models.{AgentTaskState, AdapterFailureCode, generate_planning_run_v1}
use night_voyager.Skills.{planning_runtime, SkillRuntimePin}
use night_voyager.Leases.Rows.{TaskRow, Task, is_leased, is_closed, has_lapsed, is_pending}
use night_voyager.Leases.Calls.{
  is_sha256, has_lost, left, begun, is_unstarted, start_agent_task, reschedule,
}
use night_voyager.Leases.Claim.{
  SkillTables, joins, is_pinned, Claimed, given_up, leased_row, leased_by, reclaimed_by,
  claim_leased, claim_task,
}
use night_voyager.Leases.Steps.{created, claims, starts, Steps, stay, later, IsHolder}
use night_voyager.Leases.Invariant.{IsSound, created-Steps-IsSound}
use night_voyager.Leases.Fencing.{IsFenced, claim_task-IsFenced}
use night_voyager.Leases.Lifecycle.{Move, view, Step-Move}
use night_voyager.Leases.Abandoned.{poll, polls, IsSpaced, created-polls-closed}
use night_voyager.Leases.Bounds.{SatisfiesConstraints, created-SatisfiesConstraints}

abbrev pin : SkillRuntimePin
pin = record {
  skill_definition_id = 20;
  skill_version_id = 21;
  skill_activation_event_id = 22;
  skill_activation_sequence = 1;
  runtime_binding_sha256 = "b1";
}

abbrev registered : SkillTables
registered = record {
  versions =
      record {
        definition_id = 20;
        id = 21;
        runtime_binding_sha256 = "b1";
        binding_kind = planning_runtime;
      }
      ∷ [];
  activations =
      record { id = 22; definition_id = 20; activated_version_id = 21; activation_sequence = 1 }
      ∷ [];
}

abbrev pins : TaskRow
pins = record {
  id = 5;
  case_id = 6;
  operation = generate_planning_run_v1;
  case_revision = 1;
  source_pack_id = 7;
  source_pack_version = 1;
  policy_version = "m3a-policy-v1";
  predecessor_planning_run_id = none;
  skill_pin = some pin;
  row_version = 1;
  state = AgentTaskState.queued;
  attempt_count = 0;
  lease_owner = none;
  lease_generation = 0;
  lease_expires_at = none;
  result_planning_run_id = none;
  terminal_code = none;
}

abbrev digest : String
digest = "0123456789abcdef0123456789abcdef0123456789abcdef0123456789abcdef"

abbrev first_claim : Claimed
first_claim = claim_task registered "ann" 30 0 (created pins 0)

abbrev running_task : Task
running_task = begun 1 digest 10 first_claim.task

abbrev second_claim : Claimed
second_claim = claim_task registered "bob" 31 60000 running_task

starts_at_ten : start_agent_task "ann" 1 digest 10 first_claim.task ≡ ok running_task
unfolding created claim_task is_closed is_leased is_pinned joins leased_by leased_row reschedule
    start_agent_task is_sha256 has_lost is_unstarted has_lapsed
starts_at_ten = refl

due_at_once : has_lapsed (created pins 0).dispatch 0 ≡ true
unfolding created has_lapsed
due_at_once = refl

to_running : Steps (created pins 0) running_task
to_running =
    later (later stay (claims registered "ann" 30 0 due_at_once))
      (starts "ann" 1 digest 10 starts_at_ten)

first_generation : first_claim.generation ≡ some 1
unfolding created claim_task is_closed is_leased is_pinned joins leased_by leased_row
first_generation = refl

second_generation : second_claim.generation ≡ some 2
unfolding created claim_task is_closed is_leased is_pinned joins leased_by leased_row reschedule
    begun claim_leased is_pending reclaimed_by
second_generation = refl

running_live : is_closed running_task.row.state ≡ false
unfolding created claim_task is_closed is_leased is_pinned joins leased_by leased_row begun
running_live = refl

created-Steps-IsSound_example : IsSound running_task
created-Steps-IsSound_example = created-Steps-IsSound pins 0 to_running

created-SatisfiesConstraints_example : SatisfiesConstraints running_task
created-SatisfiesConstraints_example = created-SatisfiesConstraints pins 0 to_running

claim_task-IsFenced_example : IsFenced second_claim.task 1
claim_task-IsFenced_example =
    claim_task-IsFenced registered "ann" "bob" 30 31 0 60000 (created pins 0) running_task
      second_claim.task first_generation (later stay (starts "ann" 1 digest 10 starts_at_ten))
      second_generation stay

due_at_sixty : has_lapsed running_task.dispatch 60000 ≡ true
unfolding created claim_task is_closed is_leased is_pinned joins leased_by leased_row reschedule
    begun has_lapsed
due_at_sixty = refl

Step-Move_example : Move 60000 (view running_task) (view second_claim.task)
Step-Move_example =
    Step-Move (created-Steps-IsSound pins 0 to_running)
      (claims registered "bob" 31 60000 due_at_sixty)

-- Ann reports that her adapter's request broke off.
held_by_ann : IsHolder running_task "ann" 1 20
unfolding created claim_task is_closed is_leased is_pinned joins leased_by leased_row begun
    has_lapsed
held_by_ann = record { leased = refl; owner = refl; current = refl; fresh = refl }

report_failure-IsSettled_example :
    (u : Task) × (report_failure AdapterFailureCode.transport_interrupted "ann" 1 20 running_task
      ≡ ok u)
    × IsSettled AdapterFailureCode.transport_interrupted 20 running_task u
report_failure-IsSettled_example =
    report_failure-IsSettled AdapterFailureCode.transport_interrupted "ann" 1 20 running_task
      (created-Steps-IsSound pins 0 to_running).placed held_by_ann

created-polls-closed_example :
    (now : ℕ) × ((tables : SkillTables) (worker : String) (id : ℕ) (moments : List ℕ)
      → IsSpaced now moments
      → length moments ≡ 4
      → is_closed (polls tables worker id moments running_task).row.state ≡ true)
created-polls-closed_example = created-polls-closed pins 0 to_running running_live

-- After the third attempt the fourth poll ends the task.
abandoned_run :
    (polls registered "ann" 30 (0 ∷ 60000 ∷ 120000 ∷ 180000 ∷ []) (created pins 0)).row.state
    ≡ AgentTaskState.failed
unfolding created poll has_lapsed claim_task is_closed is_leased is_pinned joins leased_by
    leased_row reschedule claim_leased is_pending reclaimed_by given_up left
abandoned_run = refl
