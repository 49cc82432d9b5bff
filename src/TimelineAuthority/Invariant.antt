-- ===== src/TimelineAuthority/Invariant.antt =====
-- What holds of a timeline at every moment.
use mathlib.Core.Path.{subst}
use night_voyager.TimelineAuthority.Steps.{
  IsFresh, unstarted, Reach, initial, next, Written, Effect, begins, repeats, writes,
}
use night_voyager.TimelineAuthority.Start.{
  milestones_mismatch, checkpoint_at, checkpoints_from, execution_row, begun_with,
}
use night_voyager.TimelineExecution.Policy.{milestones_order}
use night_voyager.Decision.Models.{review_action_eq, decision_source_eq, TimelineMilestone}
use night_voyager.Base.Equality.{◌==◌, nat_eq, string_eq, eq_of_bne, option_eq}
use night_voyager.TimelineAuthority.Passed.{IsGated}
use night_voyager.Base.{
  eq_of_some, length, All, list_eq, ℕ, suc, String, ◌≡◌, refl, sym, ap, ◌∙◌, inl, inr, false, none,
  List, [], ◌∷◌, map, arith,
}
use night_voyager.Planning.Models.{Uuid}
use night_voyager.TimelineExecution.Enums.{
  timeline_execution_state_eq, timeline_checkpoint_state_eq, timeline_risk_state_eq,
  checkpoint_attestation_kind_eq, checkpoint_status_code_eq, checkpoint_attestation_reason_code_eq,
  checkpoint_verification_reason_code_eq,
}
use night_voyager.TimelineExecution.Models.{
  TimelineExecution, timeline_checkpoint_eq, timeline_activity_item_eq,
}
use night_voyager.TimelineAuthority.Rows.{
  CheckpointRow, ParticipantRow, Anchor, Timeline, Caller, Request, Target,
}
use night_voyager.TimelineAuthority.Gate.{is_open_state}
use night_voyager.TimelineAuthority.Writes.{recorded}
use night_voyager.TimelineAuthority.Lines.{IsRow, IsAt}
use night_voyager.TimelineAuthority.Kept.{IsBacked}
use night_voyager.TimelineAuthority.Standing.{IsStanding, IsSound, Written-StandsAs}
use night_voyager.TimelineAuthority.Effects.{Step-Effect}

begun_line :
    (ids : ℕ → Uuid) (execution : Uuid) (now : ℕ) (ms : List TimelineMilestone)
    → map TimelineMilestone.key ms ≡ milestones_order
    → IsFresh ids
    → IsRow 1 (checkpoints_from ids execution now 1 ms)
      × (length (checkpoints_from ids execution now 1 ms) ≡ 4)
      × (map (λ c. c.milestone_key) (checkpoints_from ids execution now 1 ms) ≡ milestones_order)
      × IsAt (ids 1) (checkpoints_from ids execution now 1 ms)
      × All (IsBacked []) (checkpoints_from ids execution now 1 ms)
unfolding checkpoints_from checkpoint_at is_open_state
begun_line ids execution now (a ∷ b ∷ c ∷ d ∷ []) keys fresh =
    let ka : a.key ≡ "documents" = cc in
    let kb : b.key ≡ "application" = cc in
    let kc : c.key ≡ "visa" = cc in
    let kd : d.key ≡ "arrival" = cc in
    (
      (
        refl,
        ap (λ k. k == "arrival") ka,
        fresh.0,
        (
          refl,
          ap (λ k. k == "arrival") kb,
          fresh.1.0,
          (
            refl,
            ap (λ k. k == "arrival") kc,
            fresh.1.1.0,
            (refl, ap (λ k. k == "arrival") kd, refl, tt),
          ),
        ),
      ),
      refl,
      keys,
      inr (
        refl,
        refl,
        (
          (refl, λ s. absurd (ground (arith, fresh.0, s))),
          (
            (refl, λ s. absurd (ground (arith, fresh.0, s))),
            ((refl, λ s. absurd (ground (arith, fresh.0, s))), tt),
          ),
        ),
      ),
      ((λ h. cc), ((λ h. cc), ((λ h. cc), ((λ h. cc), tt)))),
    )
begun_line ids execution now [] keys fresh = absurd (cc)
begun_line ids execution now (a ∷ []) keys fresh = absurd (cc)
begun_line ids execution now (a ∷ b ∷ []) keys fresh = absurd (cc)
begun_line ids execution now (a ∷ b ∷ c ∷ []) keys fresh = absurd (cc)
begun_line ids execution now (a ∷ b ∷ c ∷ d ∷ x ∷ xs) keys fresh = absurd (cc)

begun_with-IsSound :
    (caller : Caller) (request : Request) (execution : Uuid) (ids : ℕ → Uuid) (now : ℕ)
    (t : Timeline)
    → t.execution ≡ none
    → t.receipts ≡ []
    → t.verifications ≡ []
    → milestones_mismatch t.anchor.milestones ≡ false
    → IsFresh ids
    → IsSound (begun_with caller request execution ids now t)
unfolding begun_with milestones_mismatch
begun_with-IsSound caller request execution ids now t never no_receipt no_verification keys fresh =
    let (row, four, order, at, backed) =
      begun_line ids execution now t.anchor.milestones (eq_of_bne keys) fresh in
    inr (
      execution_row t.anchor execution now,
      refl,
      record {
        row = row;
        four = four;
        keys = order;
        line = inl ((λ done. cc), (ids 1, at));
        backed =
            subst
              (λ vs. All (IsBacked vs) (checkpoints_from ids execution now 1 t.anchor.milestones))
              (sym no_verification) backed;
        audited = ap (λ rs. suc (length rs)) (sym no_receipt);
      },
    )

recorded-IsSound :
    (name operation kind : String) (result : Uuid) (step : ℕ) (caller : Caller) (request : Request)
    (now : ℕ) (t : Timeline) (target : Target) (e : TimelineExecution) (c : CheckpointRow)
    (w : Timeline)
    → IsGated t target e c
    → IsStanding t e
    → Written t target e c w
    → IsSound (recorded name operation kind result step caller request target now w).0
unfolding recorded
recorded-IsSound name operation kind result step caller request now t target e c w g v written =
    let (f, stored, stands, version, receipts) = Written-StandsAs t target e c g v w written in
    inr (
      f,
      stored,
      stands _ refl refl
          (version ∙ omega (arith, v.audited) ∙ ap (λ rs. suc (length rs)) (sym receipts)),
    )

Effect-IsSound : {t u : Timeline} → Effect t u → IsSound t → IsSound u
Effect-IsSound {t} (begins caller request execution ids now never keys fresh)
      (inl (_, no_receipt, no_verification)) =
    begun_with-IsSound caller request execution ids now t never no_receipt no_verification keys
      fresh
Effect-IsSound {t} (begins caller request execution ids now never keys fresh) (inr (e, stored, v)) =
    cc
Effect-IsSound repeats v = v
Effect-IsSound {t}
      (writes target e c w name operation kind result step caller request now g written)
      (inl (never, _, _)) =
    absurd (ground (arith, never, g.stored))
Effect-IsSound {t}
      (writes target e c w name operation kind result step caller request now g written)
      (inr (f, stored, v)) =
    recorded-IsSound name operation kind result step caller request now t target e c w g
      (subst (IsStanding t) (eq_of_some (sym stored ∙ g.stored)) v) written

-- After any calls that succeed, in any order, an execution that was started has four checkpoints,
-- whose keys are the milestones in their order, of which exactly one is current, after verified and before pending
-- ones, until it is completed, when all four are verified; each verified checkpoint has an advisor's
-- verification, and the version of the execution is the number of its receipts.
pub Reach-IsSound :
    {anchor : Anchor} {participants : List ParticipantRow} {t : Timeline}
    → Reach anchor participants t
    → IsSound t
unfolding unstarted
Reach-IsSound initial = inl (refl, refl, refl)
Reach-IsSound (next reached step) = Effect-IsSound (Step-Effect step) (Reach-IsSound reached)
