-- ===== src/TimelineAuthority/Lines.antt =====
-- The checkpoints of an execution in a line: verified ones, the current one, pending ones.
use night_voyager.Base.{
  ◌==◌, nat_eq, string_eq, option_eq, select, is_empty, All, contains, list_eq, ℕ, ◌+◌, ◌≡◌, refl,
  ◌∙◌, ◌≢◌, ◌⊎◌, inl, inr, true, false, List, [], ◌∷◌, map, arith,
}
use night_voyager.Planning.Models.{Uuid}
use night_voyager.TimelineExecution.Enums.{
  timeline_execution_state_eq, TimelineCheckpointState, timeline_checkpoint_state_eq,
  timeline_risk_state_eq, checkpoint_attestation_kind_eq, checkpoint_status_code_eq,
  checkpoint_attestation_reason_code_eq, checkpoint_verification_reason_code_eq,
}
use night_voyager.TimelineAuthority.Rows.{CheckpointRow}
use night_voyager.TimelineAuthority.Gate.{is_open_state, is_open_row}
use night_voyager.TimelineAuthority.Writes.{update_checkpoint}

-- Numbered from `k` on, with distinct ids, and the arrival at the end only.
abbrev pub IsRow : ℕ → List CheckpointRow → Type 0
IsRow k [] = Unit
IsRow k (c ∷ cs) =
    (c.ordinal ≡ k)
    × ((c.milestone_key == "arrival") ≡ is_empty cs)
    × (contains c.id (map (λ d. d.id) cs) ≡ false)
    × IsRow (k + 1) cs

abbrev pub IsAhead : Uuid → CheckpointRow → Type 0
IsAhead p c = (c.state ≡ TimelineCheckpointState.pending) × (c.id ≢ p)

-- The current checkpoint has the id `p`; those before are verified, and those after are pending.
abbrev pub IsAt : Uuid → List CheckpointRow → Type 0
IsAt p [] = ⊥
IsAt p (c ∷ cs) =
    ((c.state ≡ TimelineCheckpointState.verified) × (c.id ≢ p) × IsAt p cs)
    ⊎ ((is_open_row c ≡ true) × (c.id ≡ p) × All (IsAhead p) cs)

abbrev pub IsVerified : CheckpointRow → Type 0
IsVerified c = c.state ≡ TimelineCheckpointState.verified

-- A change that keeps what `IsRow` reads.
abbrev pub IsKept : (CheckpointRow → CheckpointRow) → Type 0
IsKept change =
    (c : CheckpointRow)
    → ((change c).id ≡ c.id)
      × ((change c).ordinal ≡ c.ordinal)
      × ((change c).milestone_key ≡ c.milestone_key)

ids-map :
    (change : CheckpointRow → CheckpointRow) (cs : List CheckpointRow)
    → IsKept change
    → map (λ c. c.id) (map change cs) ≡ map (λ c. c.id) cs
ids-map change [] kept = refl
ids-map change (c ∷ cs) kept = ground (arith, kept c, ids-map change cs kept)

pub keys-map :
    (change : CheckpointRow → CheckpointRow) (cs : List CheckpointRow)
    → IsKept change
    → map (λ c. c.milestone_key) (map change cs) ≡ map (λ c. c.milestone_key) cs
keys-map change [] kept = refl
keys-map change (c ∷ cs) kept = ground (arith, kept c, keys-map change cs kept)

is_empty-map :
    (change : CheckpointRow → CheckpointRow) (cs : List CheckpointRow)
    → is_empty (map change cs) ≡ is_empty cs
is_empty-map change [] = refl
is_empty-map change (c ∷ cs) = refl

pub IsRow-map :
    (change : CheckpointRow → CheckpointRow) (k : ℕ) (cs : List CheckpointRow)
    → IsKept change
    → IsRow k cs
    → IsRow k (map change cs)
IsRow-map change k [] kept row = tt
IsRow-map change k (c ∷ cs) kept (ordinal, key, fresh, rest) =
    let (same_id, same_ordinal, same_key) = kept c in
    (
      same_ordinal ∙ ordinal,
      rw (same_key, is_empty-map change cs) key,
      rw (same_id, ids-map change cs kept) fresh,
      IsRow-map change (k + 1) cs kept rest,
    )

pub select-ahead :
    (p : Uuid) (cs : List CheckpointRow) → All (IsAhead p) cs → select is_open_row cs ≡ []
unfolding is_open_state
select-ahead p [] ahead = refl
select-ahead p (c ∷ cs) ((pending_state, _), ahead) =
    ground (arith, pending_state, select-ahead p cs ahead)

-- One checkpoint is open, and it is the current one.
pub IsAt-select :
    (p : Uuid) (cs : List CheckpointRow)
    → IsAt p cs
    → (c : CheckpointRow) × (select is_open_row cs ≡ c ∷ []) × (c.id ≡ p)
unfolding is_open_state
IsAt-select p [] at = absurd at
IsAt-select p (c ∷ cs) (inl (done, _, at)) =
    let (d, sole, same) = IsAt-select p cs at in (d, ground (arith, done, sole), same)
IsAt-select p (c ∷ cs) (inr (opened_here, same, ahead)) =
    (c, ground (arith, opened_here, select-ahead p cs ahead), same)

pub update-ahead :
    (p : Uuid) (change : CheckpointRow → CheckpointRow) (cs : List CheckpointRow)
    → All (IsAhead p) cs
    → update_checkpoint p change cs ≡ cs
unfolding update_checkpoint
update-ahead p change [] ahead = refl
update-ahead p change (c ∷ cs) ((_, other), ahead) =
    ground (arith, other, update-ahead p change cs ahead)
