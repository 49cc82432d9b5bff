-- ===== src/TimelineAuthority/Kept.antt =====
-- The writes keep the row of the checkpoints, and verify none without a verification.
use night_voyager.Base.Equality.{◌==◌, nat_eq, string_eq, eq_of_beq, option_eq}
use night_voyager.Base.{
  if◌then◌else◌, Bool-cases, any, All, list_eq, ℕ, ◌+◌, ◌≡◌, refl, ap, ◌∙◌, inl, inr, Bool, true,
  false, ◌&&◌, List, [], ◌∷◌, map, arith,
}
use night_voyager.Planning.Models.{Uuid}
use night_voyager.TimelineExecution.Enums.{
  timeline_execution_state_eq, TimelineCheckpointState, timeline_checkpoint_state_eq,
  timeline_risk_state_eq, checkpoint_attestation_kind_eq, checkpoint_status_code_eq,
  checkpoint_attestation_reason_code_eq, checkpoint_verification_reason_code_eq,
}
use night_voyager.TimelineAuthority.Rows.{CheckpointRow, VerificationRow}
use night_voyager.TimelineAuthority.Gate.{is_open_state, is_open_row}
use night_voyager.TimelineAuthority.Writes.{update_checkpoint}
use night_voyager.TimelineAuthority.Attest.{Attestation, attested}
use night_voyager.TimelineAuthority.Verify.{returned_to_work, verified_at_now, opened, open_next}
use night_voyager.TimelineAuthority.Steps.{is_verification_of}
use night_voyager.TimelineAuthority.Lines.{IsRow, IsVerified, IsKept, keys-map, IsRow-map}

-- A change under a test.
when-IsKept :
    (test : CheckpointRow → Bool) (change : CheckpointRow → CheckpointRow)
    → IsKept change
    → IsKept (λ c. if test c then change c else c)
when-IsKept test change kept c = elim (Bool-cases (test c)) [
  | inl yes_here ↦ rw yes_here (kept c)
  | inr not_here ↦ rw not_here (refl, refl, refl)
]

pub attested-IsKept : (a : Attestation) (now : ℕ) → IsKept (attested a now)
unfolding attested
attested-IsKept a now c = (refl, refl, refl)

pub returned_to_work-IsKept : (now : ℕ) → IsKept (returned_to_work now)
unfolding returned_to_work
returned_to_work-IsKept now c = (refl, refl, refl)

pub verified_at_now-IsKept : (now : ℕ) → IsKept (verified_at_now now)
unfolding verified_at_now
verified_at_now-IsKept now c = (refl, refl, refl)

opened-IsKept : (now : ℕ) → IsKept (opened now)
unfolding opened
opened-IsKept now c = (refl, refl, refl)

pub update_checkpoint-IsRow :
    (id : Uuid) (change : CheckpointRow → CheckpointRow) (k : ℕ) (cs : List CheckpointRow)
    → IsKept change
    → IsRow k cs
    → IsRow k (update_checkpoint id change cs)
unfolding update_checkpoint
update_checkpoint-IsRow id change k cs kept row =
    IsRow-map _ k cs (when-IsKept (λ c. c.id == id) change kept) row

pub open_next-IsRow :
    (o now k : ℕ) (cs : List CheckpointRow) → IsRow k cs → IsRow k (open_next o now cs)
unfolding open_next
open_next-IsRow o now k cs row =
    IsRow-map _ k cs
      (when-IsKept (λ c. (c.ordinal == o + 1) && (c.state == TimelineCheckpointState.pending))
        (opened now) (opened-IsKept now))
      row

pub keys-update_checkpoint :
    (id : Uuid) (change : CheckpointRow → CheckpointRow) (cs : List CheckpointRow)
    → IsKept change
    → map (λ c. c.milestone_key) (update_checkpoint id change cs) ≡ map (λ c. c.milestone_key) cs
unfolding update_checkpoint
keys-update_checkpoint id change cs kept = keys-map _ cs (when-IsKept (λ c. c.id == id) change kept)

pub keys-open_next :
    (o now : ℕ) (cs : List CheckpointRow)
    → map (λ c. c.milestone_key) (open_next o now cs) ≡ map (λ c. c.milestone_key) cs
unfolding open_next
keys-open_next o now cs = keys-map _ cs (
    when-IsKept (λ c. (c.ordinal == o + 1) && (c.state == TimelineCheckpointState.pending))
      (opened now) (opened-IsKept now))

-- A verified checkpoint has a verification among `vs`.
abbrev pub IsBacked : List VerificationRow → CheckpointRow → Type 0
IsBacked vs c = IsVerified c → any (is_verification_of c.id) vs ≡ true

pub IsBacked-more :
    (v : VerificationRow) (vs : List VerificationRow) (cs : List CheckpointRow)
    → All (IsBacked vs) cs
    → All (IsBacked (v ∷ vs)) cs
IsBacked-more v vs [] backed = tt
IsBacked-more v vs (c ∷ cs) (here, backed) =
    ((λ done. let found = here done in ground (arith, found)), IsBacked-more v vs cs backed)

-- A change that verifies nothing keeps what is verified.
All-IsBacked-map :
    (vs : List VerificationRow) (change : CheckpointRow → CheckpointRow) (cs : List CheckpointRow)
    → ((c : CheckpointRow) → IsBacked vs c → IsBacked vs (change c))
    → All (IsBacked vs) cs
    → All (IsBacked vs) (map change cs)
All-IsBacked-map vs change [] keeps backed = tt
All-IsBacked-map vs change (c ∷ cs) keeps (here, backed) =
    (keeps c here, All-IsBacked-map vs change cs keeps backed)

when-IsBacked :
    (vs : List VerificationRow) (test : Bool) (c d : CheckpointRow)
    → (test ≡ true → IsBacked vs d)
    → IsBacked vs c
    → IsBacked vs (if test then d else c)
when-IsBacked vs true c d changed here = changed refl
when-IsBacked vs false c d changed here = here

open-IsBacked :
    (vs : List VerificationRow) (c : CheckpointRow) → is_open_row c ≡ true → IsBacked vs c
unfolding is_open_state
open-IsBacked vs c here done = absurd (ground (arith, here, done))

pub update_checkpoint-IsBacked :
    (vs : List VerificationRow) (id : Uuid) (change : CheckpointRow → CheckpointRow)
    (cs : List CheckpointRow)
    → ((c : CheckpointRow) → is_open_row (change c) ≡ true)
    → All (IsBacked vs) cs
    → All (IsBacked vs) (update_checkpoint id change cs)
unfolding update_checkpoint
update_checkpoint-IsBacked vs id change cs opens backed =
    All-IsBacked-map vs _ cs
      (λ c. when-IsBacked vs (c.id == id) c (change c) (λ _. open-IsBacked vs (change c) (opens c)))
      backed

pub open_next-IsBacked :
    (vs : List VerificationRow) (o now : ℕ) (cs : List CheckpointRow)
    → All (IsBacked vs) cs
    → All (IsBacked vs) (open_next o now cs)
unfolding open_next opened is_open_state
open_next-IsBacked vs o now cs backed =
    All-IsBacked-map vs _ cs
      (λ c. when-IsBacked vs _ c (opened now c) (λ _. open-IsBacked vs (opened now c) refl)) backed

any-first :
    (v : VerificationRow) (vs : List VerificationRow) (id : Uuid)
    → is_verification_of id v ≡ true
    → any (is_verification_of id) (v ∷ vs) ≡ true
any-first v vs id one = ground (arith, one)

-- The checkpoint that is verified has its verification.
pub verified-IsBacked :
    (v : VerificationRow) (vs : List VerificationRow) (id : Uuid) (now : ℕ)
    (cs : List CheckpointRow)
    → is_verification_of id v ≡ true
    → All (IsBacked vs) cs
    → All (IsBacked (v ∷ vs)) (update_checkpoint id (verified_at_now now) cs)
unfolding update_checkpoint verified_at_now
verified-IsBacked v vs id now cs one backed =
    All-IsBacked-map (v ∷ vs) _ cs
      (λ c. when-IsBacked (v ∷ vs) (c.id == id) c (verified_at_now now c) (λ same done.
        any-first v vs c.id (ap (λ i. is_verification_of i v) (eq_of_beq same) ∙ one)))
      (IsBacked-more v vs cs backed)
