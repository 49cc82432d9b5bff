-- ===== src/TimelineAuthority/Standing.antt =====
-- What a started timeline keeps, and that the writes on its current checkpoint keep it.
use mathlib.Core.Path.{subst}
use night_voyager.TimelineAuthority.Steps.{
  Written, attesting, returning, completing, moving, reassessing,
}
use night_voyager.TimelineAuthority.Reassess.{reassess_writes}
use night_voyager.TimelineAuthority.Passed.{IsGated}
use night_voyager.TimelineAuthority.Moves.{IsAt-update, IsAt-close, IsAt-move}
use night_voyager.Base.{
  length, All, ℕ, suc, ◌+◌, ◌≡◌, refl, sym, ap, ◌∙◌, ◌≢◌, ◌⊎◌, inl, inr, true, none, some, List, [],
  ◌∷◌, map, arith,
}
use night_voyager.TimelineExecution.Policy.{milestones_order}
use night_voyager.Planning.Models.{Uuid}
use night_voyager.TimelineExecution.Enums.{TimelineExecutionState}
use night_voyager.TimelineExecution.Models.{TimelineExecution}
use night_voyager.TimelineAuthority.Rows.{CheckpointRow, VerificationRow, Timeline, Target}
use night_voyager.TimelineAuthority.Gate.{is_open_state, is_open_row}
use night_voyager.TimelineAuthority.Writes.{update_checkpoint, next_version}
use night_voyager.TimelineAuthority.Attest.{Attestation, attested_state, attested, attest_writes}
use night_voyager.TimelineAuthority.Verify.{
  returned_to_work, verified_at_now, open_next, update_requested, completed_by, moved_on,
}
use night_voyager.TimelineAuthority.Lines.{IsRow, IsAt, IsVerified, IsKept, IsAt-select}
use night_voyager.TimelineAuthority.Kept.{
  attested-IsKept, returned_to_work-IsKept, verified_at_now-IsKept, update_checkpoint-IsRow,
  open_next-IsRow, keys-update_checkpoint, keys-open_next, IsBacked, IsBacked-more,
  update_checkpoint-IsBacked, open_next-IsBacked, verified-IsBacked,
}

-- One checkpoint is current unless the execution is completed, when all are verified.
abbrev pub HasLine : TimelineExecutionState → List CheckpointRow → Type 0
HasLine state cs =
    ((state ≢ TimelineExecutionState.completed) × ((p : Uuid) × IsAt p cs))
    ⊎ ((state ≡ TimelineExecutionState.completed) × All IsVerified cs)

-- Four checkpoints in a row, with the keys of the milestones in their order, each verified one with a verification, and a receipt for each version.
pub record IsStanding (t : Timeline) (e : TimelineExecution) : Type 0 where
  pub row : IsRow 1 t.checkpoints
  pub four : length t.checkpoints ≡ 4
  pub keys : map (λ c. c.milestone_key) t.checkpoints ≡ milestones_order
  pub line : HasLine e.state t.checkpoints
  pub backed : All (IsBacked t.verifications) t.checkpoints
  pub audited : e.row_version ≡ length t.receipts

abbrev pub IsSound : Timeline → Type 0
IsSound t =
    ((t.execution ≡ none) × (t.receipts ≡ []) × (t.verifications ≡ []))
    ⊎ ((e : TimelineExecution) × (t.execution ≡ some e) × IsStanding t e)

length-update :
    (id : Uuid) (change : CheckpointRow → CheckpointRow) (cs : List CheckpointRow)
    → length (update_checkpoint id change cs) ≡ length cs
unfolding update_checkpoint
length-update id change [] = refl
length-update id change (c ∷ cs) = ap suc (length-update id change cs)

length-open_next : (o now : ℕ) (cs : List CheckpointRow) → length (open_next o now cs) ≡ length cs
unfolding open_next
length-open_next o now [] = refl
length-open_next o now (c ∷ cs) = ap suc (length-open_next o now cs)

attested-opens :
    (a : Attestation) (now : ℕ) (c : CheckpointRow) → is_open_row (attested a now c) ≡ true
unfolding attested attested_state is_open_state
attested-opens a now c = ground arith

returned-opens : (now : ℕ) (c : CheckpointRow) → is_open_row (returned_to_work now c) ≡ true
unfolding returned_to_work is_open_state
returned-opens now c = refl

-- The writes of a call on the current checkpoint.
module _ (t : Timeline) (target : Target) (e : TimelineExecution) (c : CheckpointRow)
    (g : IsGated t target e c) (v : IsStanding t e) where
  -- The current checkpoint is the target.
  target-IsAt : IsAt target.checkpoint_id t.checkpoints
  target-IsAt = elim v.line [
    | inl (_, (p, at)) ↦
        let (d, sole, same) = IsAt-select p t.checkpoints at in
        subst (λ q. IsAt q t.checkpoints)
          (sym same ∙ ap (λ x. x.id) (sole_eq d c (sym sole ∙ g.sole)) ∙ g.same) at
    | inr (done, _) ↦ absurd (ground (arith, done, g.is_active))
  ]
    where
      sole_eq : (x y : CheckpointRow) → (x ∷ []) ≡ (y ∷ []) → x ≡ y
      sole_eq x y h = cc

  not_completed : e.state ≢ TimelineExecutionState.completed
  not_completed done = absurd (ground (arith, done, g.is_active))

  -- A change that leaves the target open.
  stays-IsStanding :
      (change : CheckpointRow → CheckpointRow) (u : Timeline) (f : TimelineExecution)
      (vs : List VerificationRow)
      → IsKept change
      → ((d : CheckpointRow) → is_open_row (change d) ≡ true)
      → u.checkpoints ≡ update_checkpoint target.checkpoint_id change t.checkpoints
      → u.verifications ≡ vs
      → All (IsBacked vs) t.checkpoints
      → f.state ≡ e.state
      → f.row_version ≡ length u.receipts
      → IsStanding u f
  stays-IsStanding change u f vs kept opens same noted backed state audited = record {
    row =
        subst (IsRow 1) (sym same)
          (update_checkpoint-IsRow target.checkpoint_id change 1 t.checkpoints kept v.row);
    four = ap length same ∙ length-update target.checkpoint_id change t.checkpoints ∙ v.four;
    keys =
        ap (map (λ c. c.milestone_key)) same
        ∙ keys-update_checkpoint target.checkpoint_id change t.checkpoints kept
        ∙ v.keys;
    line = inl (
      (λ done. not_completed (sym state ∙ done)),
      (
        target.checkpoint_id,
        subst (IsAt target.checkpoint_id) (sym same)
            (IsAt-update target.checkpoint_id change t.checkpoints kept opens target-IsAt),
      ),
    );
    backed =
        subst (λ w. All (IsBacked w) u.checkpoints) (sym noted)
          (subst (All (IsBacked vs)) (sym same)
            (update_checkpoint-IsBacked vs target.checkpoint_id change t.checkpoints opens backed));
    audited = audited;
  }

  -- What the writes leave is standing, once the receipt is counted.
  abbrev pub StandsAs : Timeline → Type 0
  StandsAs w =
      (f : TimelineExecution) × (w.execution ≡ some f)
      × ((u : Timeline)
          → u.checkpoints ≡ w.checkpoints
          → u.verifications ≡ w.verifications
          → f.row_version ≡ length u.receipts
          → IsStanding u f)
      × (f.row_version ≡ e.row_version + 1)
      × (w.receipts ≡ t.receipts)

  pub Written-StandsAs : (w : Timeline) → Written t target e c w → StandsAs w
  unfolding attest_writes update_requested completed_by moved_on reassess_writes next_version
  Written-StandsAs w (attesting caller request a now) = (
    next_version e.state now e,
    refl,
    (λ u same noted audited.
        stays-IsStanding (attested a now) u _ t.verifications (attested-IsKept a now)
          (attested-opens a now) same noted v.backed refl audited),
    refl,
    refl,
  )
  Written-StandsAs w (returning x now) = (
    next_version e.state now e,
    refl,
    (λ u same noted audited.
        stays-IsStanding (returned_to_work now) u _ (x ∷ t.verifications)
          (returned_to_work-IsKept now) (returned-opens now) same noted
          (IsBacked-more x t.verifications t.checkpoints v.backed) refl audited),
    refl,
    refl,
  )
  Written-StandsAs w (completing x now one last) = (
    next_version TimelineExecutionState.completed now e,
    refl,
    (λ u same noted audited. record {
      row = subst (IsRow 1) (sym same) (
          update_checkpoint-IsRow target.checkpoint_id (verified_at_now now) 1 t.checkpoints
            (verified_at_now-IsKept now) v.row);
      four =
          ap length same
          ∙ length-update target.checkpoint_id (verified_at_now now) t.checkpoints
          ∙ v.four;
      keys =
          ap (map (λ c. c.milestone_key)) same
          ∙ keys-update_checkpoint target.checkpoint_id (verified_at_now now) t.checkpoints
              (verified_at_now-IsKept now)
          ∙ v.keys;
      line = inr (
        refl,
        subst (All IsVerified) (sym same)
            (IsAt-close target.checkpoint_id now 1 t.checkpoints c v.row target-IsAt g.sole last),
      );
      backed =
          subst (λ ys. All (IsBacked ys) u.checkpoints) (sym noted)
            (subst (All (IsBacked (x ∷ t.verifications))) (sym same) (
              verified-IsBacked x t.verifications target.checkpoint_id now t.checkpoints one
                v.backed));
      audited = audited;
    }),
    refl,
    refl,
  )
  Written-StandsAs w (moving x now one early) =
      let (q, at, _) =
        IsAt-move target.checkpoint_id now 1 t.checkpoints c v.row target-IsAt g.sole early in
      (
        next_version e.state now e,
        refl,
        (λ u same noted audited. record {
          row = subst (IsRow 1) (sym same) (
              open_next-IsRow c.ordinal now 1 _ (
                update_checkpoint-IsRow target.checkpoint_id (verified_at_now now) 1 t.checkpoints
                  (verified_at_now-IsKept now) v.row));
          four =
              ap length same
              ∙ length-open_next c.ordinal now _
              ∙ length-update target.checkpoint_id (verified_at_now now) t.checkpoints
              ∙ v.four;
          keys =
              ap (map (λ c. c.milestone_key)) same
              ∙ keys-open_next c.ordinal now _
              ∙ keys-update_checkpoint target.checkpoint_id (verified_at_now now) t.checkpoints
                  (verified_at_now-IsKept now)
              ∙ v.keys;
          line = inl (not_completed, (q, subst (IsAt q) (sym same) at));
          backed =
              subst (λ ys. All (IsBacked ys) u.checkpoints) (sym noted)
                (subst (All (IsBacked (x ∷ t.verifications))) (sym same) (
                  open_next-IsBacked (x ∷ t.verifications) c.ordinal now _ (
                    verified-IsBacked x t.verifications target.checkpoint_id now t.checkpoints one
                      v.backed)));
          audited = audited;
        }),
        refl,
        refl,
      )
  Written-StandsAs w (reassessing caller request r today now) = (
    next_version TimelineExecutionState.reassessment_required now e,
    refl,
    (λ u same noted audited. record {
      row = subst (IsRow 1) (sym same) v.row;
      four = ap length same ∙ v.four;
      keys = ap (map (λ c. c.milestone_key)) same ∙ v.keys;
      line = inl (
        (λ done. cc),
        (target.checkpoint_id, subst (IsAt target.checkpoint_id) (sym same) target-IsAt),
      );
      backed =
          subst (λ ys. All (IsBacked ys) u.checkpoints) (sym noted)
            (subst (All (IsBacked t.verifications)) (sym same) v.backed);
      audited = audited;
    }),
    refl,
    refl,
  )
