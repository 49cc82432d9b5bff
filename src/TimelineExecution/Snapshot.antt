-- ===== src/TimelineExecution/Snapshot.antt =====
-- Starting an execution from a timeline that the decision built.
use night_voyager.TimelineExecution.Enums.{
  timeline_execution_state_eq, TimelineCheckpointState, timeline_checkpoint_state_eq, overdue,
  timeline_risk_state_eq, checkpoint_attestation_kind_eq, checkpoint_status_code_eq,
  checkpoint_attestation_reason_code_eq, checkpoint_verification_reason_code_eq,
}
use night_voyager.Calendar.Ordinal.{IsDate, ordinal_iff}
use night_voyager.Planning.Enums.{
  evidence_authority_eq, evidence_class_eq, redistribution_class_eq, Country, country_eq,
  route_outcome_eq, run_state_eq, case_state_eq,
}
use night_voyager.Decision.Policy.{build_timeline_plan}
use night_voyager.Decision.Schedule.{build_timeline_plan-IsSchedule}
use night_voyager.Base.{
  nat_eq, string_eq, option_eq, All, list_beq, list_beq_iff, list_eq, ℕ, String, ◌≡◌, refl, ◌≢◌,
  true, List, [], ◌∷◌, map, arith,
}
use night_voyager.Base.Results.{ok}
use night_voyager.Calendar.{Date, date_eq, date_ltb}
use night_voyager.Decision.Models.{
  review_action_eq, decision_source_eq, TimelineMilestone, TimelinePlan,
}
use night_voyager.TimelineExecution.Models.{
  CheckpointSeed, timeline_checkpoint_eq, timeline_activity_item_eq,
}
use night_voyager.TimelineExecution.Policy.{
  milestones_order, seeds_from, snapshot_timeline_plan, derive_risk_state,
}

-- Four seeds, numbered from 1, three of the student's and the last of the parent's.
pub record IsSeeded (milestones : List TimelineMilestone) (seeds : List CheckpointSeed)
    : Type 0 where
  pub ordinals : map CheckpointSeed.ordinal seeds ≡ (1 ∷ 2 ∷ 3 ∷ 4 ∷ [])
  pub keys : map CheckpointSeed.milestone_key seeds ≡ milestones_order
  pub dates : map CheckpointSeed.due_date seeds ≡ map TimelineMilestone.due_date milestones
  pub roles :
      map CheckpointSeed.accountable_role seeds
      ≡ ("student" ∷ "student" ∷ "student" ∷ "parent" ∷ [])

abbrev seed : ℕ → TimelineMilestone → String → CheckpointSeed
seed index m role = record {
  ordinal = index;
  milestone_key = m.key;
  due_date = m.due_date;
  accountable_role = role;
}

seeds_of_keys :
    (ms : List TimelineMilestone)
    → map TimelineMilestone.key ms ≡ milestones_order
    → (seeds : List CheckpointSeed) × (seeds_from 1 ms ≡ ok seeds) × IsSeeded ms seeds
seeds_of_keys (a ∷ b ∷ c ∷ d ∷ []) h = (
  seed 1 a "student" ∷ seed 2 b "student" ∷ seed 3 c "student" ∷ seed 4 d "parent" ∷ [],
  refl,
  record { ordinals = refl; keys = h; dates = refl; roles = refl },
)
seeds_of_keys [] h = absurd (cc)
seeds_of_keys (a ∷ []) h = absurd (cc)
seeds_of_keys (a ∷ b ∷ []) h = absurd (cc)
seeds_of_keys (a ∷ b ∷ c ∷ []) h = absurd (cc)
seeds_of_keys (a ∷ b ∷ c ∷ d ∷ e ∷ ms) h = absurd (cc)

snapshot_of_keys :
    (plan : TimelinePlan)
    → map TimelineMilestone.key plan.milestones ≡ milestones_order
    → (seeds : List CheckpointSeed) × (snapshot_timeline_plan plan ≡ ok seeds)
      × IsSeeded plan.milestones seeds
unfolding snapshot_timeline_plan
snapshot_of_keys plan h =
    let (seeds, made, seeded) = seeds_of_keys plan.milestones h in
    let same : list_beq (map TimelineMilestone.key plan.milestones) milestones_order ≡ true =
      (list_beq_iff (map TimelineMilestone.key plan.milestones) milestones_order).1 h in
    (seeds, ground (arith, same, made), seeded)

not_overdue :
    (due observed : Date)
    → IsDate due
    → IsDate observed
    → date_ltb observed due ≡ true
    → derive_risk_state TimelineCheckpointState.pending due observed ≢ overdue
unfolding derive_risk_state
not_overdue due observed hd ho h = ground (arith, ordinal_iff observed due ho hd)

All-not_overdue :
    (observed : Date) (ms : List TimelineMilestone)
    → IsDate observed
    → All (λ m. IsDate m.due_date) ms
    → All (λ m. date_ltb observed m.due_date ≡ true) ms
    → All (λ m. derive_risk_state TimelineCheckpointState.pending m.due_date observed ≢ overdue) ms
All-not_overdue observed [] ho valid ahead = tt
All-not_overdue observed (m ∷ ms) ho (v, valid) (a, ahead) =
    (not_overdue m.due_date observed v ho a, All-not_overdue observed ms ho valid ahead)

-- A timeline that the decision policy builds can be started: its snapshot succeeds with four
-- checkpoints on the plan's dates, in the order of the milestones and with their roles, and on
-- the day of the decision, a date of the calendar, none of the four is overdue.
pub snapshot-build :
    (country : Country) (intake_text : String) (decided_on : Date) {plan : TimelinePlan}
    → IsDate decided_on
    → build_timeline_plan country intake_text decided_on ≡ ok plan
    → ((seeds : List CheckpointSeed) × (snapshot_timeline_plan plan ≡ ok seeds)
        × IsSeeded plan.milestones seeds)
      × All
          (λ m. derive_risk_state TimelineCheckpointState.pending m.due_date decided_on ≢ overdue)
          plan.milestones
snapshot-build country intake_text decided_on {plan} valid h =
    let schedule = (build_timeline_plan-IsSchedule country intake_text decided_on h).1 in
    (
      snapshot_of_keys plan schedule.keys,
      All-not_overdue decided_on plan.milestones valid schedule.valid schedule.ahead,
    )
