-- ===== src/TimelineAuthority/Moves.antt =====
-- What the writes of the calls do to a line of checkpoints.
use night_voyager.Base.Equality.{◌==◌, nat_eq, string_eq, beq_refl, option_eq}
use mathlib.Core.Path.{subst}
use night_voyager.Base.{
  if◌then◌else◌, Bool-cases, select, All, contains, list_eq, ℕ, ◌+◌, ◌<◌, ◌≡◌, refl, sym, ap, ◌∙◌,
  ◌≢◌, inl, inr, true, false, List, [], ◌∷◌, map, arith,
}
use night_voyager.Planning.Models.{Uuid}
use night_voyager.TimelineExecution.Enums.{
  timeline_execution_state_eq, TimelineCheckpointState, timeline_checkpoint_state_eq,
  timeline_risk_state_eq, checkpoint_attestation_kind_eq, checkpoint_status_code_eq,
  checkpoint_attestation_reason_code_eq, checkpoint_verification_reason_code_eq,
}
use night_voyager.TimelineAuthority.Rows.{CheckpointRow}
use night_voyager.TimelineAuthority.Gate.{is_open_state, is_open_row}
use night_voyager.TimelineAuthority.Writes.{update_checkpoint}
use night_voyager.TimelineAuthority.Verify.{verified_at_now, opened, open_next}
use night_voyager.TimelineAuthority.Lines.{
  IsRow, IsAhead, IsAt, IsVerified, IsKept, select-ahead, update-ahead,
}

update-head :
    (p : Uuid) (change : CheckpointRow → CheckpointRow) (c : CheckpointRow)
    (cs : List CheckpointRow)
    → c.id ≢ p
    → update_checkpoint p change (c ∷ cs) ≡ c ∷ update_checkpoint p change cs
unfolding update_checkpoint
update-head p change c cs other = ground (arith, other)

update-here :
    (p : Uuid) (change : CheckpointRow → CheckpointRow) (c : CheckpointRow)
    (cs : List CheckpointRow)
    → c.id ≡ p
    → All (IsAhead p) cs
    → update_checkpoint p change (c ∷ cs) ≡ change c ∷ cs
unfolding update_checkpoint
update-here p change c cs same ahead = ground (arith, same, update-ahead p change cs ahead)

-- The current checkpoint stays the current one.
pub IsAt-update :
    (p : Uuid) (change : CheckpointRow → CheckpointRow) (cs : List CheckpointRow)
    → IsKept change
    → ((c : CheckpointRow) → is_open_row (change c) ≡ true)
    → IsAt p cs
    → IsAt p (update_checkpoint p change cs)
IsAt-update p change [] kept opens at = absurd at
IsAt-update p change (c ∷ cs) kept opens (inl (done, other, at)) =
    subst (IsAt p) (sym (update-head p change c cs other))
      (inl (done, other, IsAt-update p change cs kept opens at))
IsAt-update p change (c ∷ cs) kept opens (inr (here, same, ahead)) =
    subst (IsAt p) (sym (update-here p change c cs same ahead))
      (inr (opens c, (kept c).0 ∙ same, ahead))

select-here :
    (p : Uuid) (c d : CheckpointRow) (cs : List CheckpointRow)
    → is_open_row c ≡ true
    → All (IsAhead p) cs
    → select is_open_row (c ∷ cs) ≡ d ∷ []
    → c ≡ d
unfolding is_open_state
select-here p c d cs here ahead sole = ground (arith, here, select-ahead p cs ahead, sole)

select-done :
    (c : CheckpointRow) (cs : List CheckpointRow)
    → IsVerified c
    → select is_open_row (c ∷ cs) ≡ select is_open_row cs
unfolding is_open_state
select-done c cs done = ground (arith, done)

-- The last milestone is verified, and so are all.
pub IsAt-close :
    (p : Uuid) (now k : ℕ) (cs : List CheckpointRow) (d : CheckpointRow)
    → IsRow k cs
    → IsAt p cs
    → select is_open_row cs ≡ d ∷ []
    → (d.milestone_key == "arrival") ≡ true
    → All IsVerified (update_checkpoint p (verified_at_now now) cs)
unfolding verified_at_now
IsAt-close p now k [] d row at sole arrival = absurd at
IsAt-close p now k (c ∷ cs) d (_, _, _, row) (inl (done, other, at)) sole arrival =
    subst (All IsVerified) (sym (update-head p (verified_at_now now) c cs other))
      (done, IsAt-close p now (k + 1) cs d row at (sym (select-done c cs done) ∙ sole) arrival)
IsAt-close p now k (c ∷ []) d row (inr (here, same, ahead)) sole arrival =
    subst (All IsVerified) (sym (update-here p (verified_at_now now) c [] same ahead)) (refl, tt)
IsAt-close p now k (c ∷ x ∷ xs) d (_, key, _, _) (inr (here, same, ahead)) sole arrival =
    let at = select-here p c d (x ∷ xs) here ahead sole in
    absurd (ground (arith, key, arrival, ap (λ e. e.milestone_key == "arrival") at))

-- The next checkpoint of the row is opened, and no other one.
open-later :
    (o now k : ℕ) (cs : List CheckpointRow) → o + 1 < k → IsRow k cs → open_next o now cs ≡ cs
unfolding open_next
open-later o now k [] less row = refl
open-later o now k (c ∷ cs) less (at, _, _, row) =
    ground (arith, less, at, open-later o now (k + 1) cs (omega (arith, less)) row)

open-done :
    (o now : ℕ) (c : CheckpointRow) (cs : List CheckpointRow)
    → IsVerified c
    → open_next o now (c ∷ cs) ≡ c ∷ open_next o now cs
unfolding open_next
open-done o now c cs done = ground (arith, done)

open-here :
    (o now : ℕ) (c : CheckpointRow) (cs : List CheckpointRow)
    → c.ordinal ≡ o + 1
    → c.state ≡ TimelineCheckpointState.pending
    → IsRow (o + 2) cs
    → open_next o now (c ∷ cs) ≡ opened now c ∷ cs
unfolding open_next
open-here o now c cs at waits row =
    ground (arith, at, waits, open-later o now (o + 2) cs (omega arith) row)

-- A checkpoint of the line has the id of the current one.
IsAt-contains :
    (p : Uuid) (cs : List CheckpointRow) → IsAt p cs → contains p (map (λ c. c.id) cs) ≡ true
IsAt-contains p [] at = absurd at
IsAt-contains p (c ∷ cs) (inl (_, _, at)) = ground (arith, IsAt-contains p cs at)
IsAt-contains p (c ∷ cs) (inr (_, same, _)) = ground (arith, same)

abbrev ids_of : List CheckpointRow → List ℕ
ids_of cs = map (λ c. c.id) cs

contains-first : (a : ℕ) (ids : List ℕ) → contains a (a ∷ ids) ≡ true
contains-first a ids = ground (arith, beq_refl a)

contains-tail : (a b : ℕ) (ids : List ℕ) → contains a ids ≡ true → contains a (b ∷ ids) ≡ true
contains-tail a b ids inside = ground (arith, inside)

contains-apart : (a b : ℕ) (ids : List ℕ) → contains a ids ≡ false → contains b ids ≡ true → a ≢ b
contains-apart a b ids outside inside same = ground (arith, ap (λ i. contains i ids) same)

module _ (p now : ℕ) where
  -- The line after the current checkpoint, of ordinal `o`, is verified and the next one opened.
  abbrev moved : ℕ → List CheckpointRow → List CheckpointRow
  moved o cs = open_next o now (update_checkpoint p (verified_at_now now) cs)

  moved-done :
      (o : ℕ) (c : CheckpointRow) (cs : List CheckpointRow)
      → c.id ≢ p
      → IsVerified c
      → moved o (c ∷ cs) ≡ c ∷ moved o cs
  moved-done o c cs other done =
      ap (open_next o now) (update-head p (verified_at_now now) c cs other)
      ∙ open-done o now c (update_checkpoint p (verified_at_now now) cs) done

  moved-here :
      (c x : CheckpointRow) (xs : List CheckpointRow)
      → c.id ≡ p
      → All (IsAhead p) (x ∷ xs)
      → IsRow (c.ordinal + 1) (x ∷ xs)
      → moved c.ordinal (c ∷ x ∷ xs) ≡ verified_at_now now c ∷ opened now x ∷ xs
  unfolding verified_at_now
  moved-here c x xs same ahead (at, _, _, row) =
      ap (open_next c.ordinal now) (update-here p (verified_at_now now) c (x ∷ xs) same ahead)
      ∙ open-done c.ordinal now (verified_at_now now c) (x ∷ xs) refl
      ∙ ap (λ rest. verified_at_now now c ∷ rest)
          (open-here c.ordinal now x xs at ahead.0.0 (subst (λ n. IsRow n xs) (omega arith) row))

  closed-IsKept : IsKept (λ c. if c.id == p then verified_at_now now c else c)
  unfolding verified_at_now
  closed-IsKept c = elim (Bool-cases (c.id == p)) [
    | inl here ↦ rw here (refl, refl, refl)
    | inr other ↦ rw other (refl, refl, refl)
  ]

  IsAhead-other :
      (q : ℕ) (xs : List CheckpointRow)
      → contains q (map (λ d. d.id) xs) ≡ false
      → All (IsAhead p) xs
      → All (IsAhead q) xs
  IsAhead-other q [] fresh ahead = tt
  IsAhead-other q (x ∷ xs) fresh ((waits, _), ahead) = (
    (waits, λ same. absurd (ground (arith, fresh, same))),
    IsAhead-other q xs (ground (arith, fresh)) ahead,
  )

  pub IsAt-move :
      (k : ℕ) (cs : List CheckpointRow) (d : CheckpointRow)
      → IsRow k cs
      → IsAt p cs
      → select is_open_row cs ≡ d ∷ []
      → (d.milestone_key == "arrival") ≡ false
      → (q : ℕ) × IsAt q (moved d.ordinal cs) × (contains q (map (λ c. c.id) cs) ≡ true)
  unfolding verified_at_now opened is_open_state
  IsAt-move k [] d row at sole early = absurd at
  IsAt-move k (c ∷ cs) d (_, _, fresh, row) (inl (done, other, at)) sole early =
      let (q, found, inside) =
        IsAt-move (k + 1) cs d row at (sym (select-done c cs done) ∙ sole) early in
      (
        q,
        subst (IsAt q) (sym (moved-done d.ordinal c cs other done))
            (inl (done, contains-apart c.id q (ids_of cs) fresh inside, found)),
        contains-tail q c.id (ids_of cs) inside,
      )
  IsAt-move k (c ∷ []) d (_, key, _, _) (inr (here, same, ahead)) sole early =
      let at = select-here p c d [] here ahead sole in
      absurd (ground (arith, key, early, ap (λ e. e.milestone_key == "arrival") at))
  IsAt-move k (c ∷ x ∷ xs) d (ordinal, _, fresh, row) (inr (here, same, ahead)) sole early =
      let at = select-here p c d (x ∷ xs) here ahead sole in
      let shown =
        moved-here c x xs same ahead (subst (λ n. IsRow (n + 1) (x ∷ xs)) (sym ordinal) row) in
      (
        x.id,
        subst (IsAt x.id) (sym (ap (λ e. moved e.ordinal (c ∷ x ∷ xs)) (sym at) ∙ shown)) (
            inl (
              refl,
              contains-apart c.id x.id (ids_of (x ∷ xs)) fresh (contains-first x.id (ids_of xs)),
              inr (refl, refl, IsAhead-other x.id xs row.2 ahead.1),
            )),
        contains-tail x.id c.id (ids_of (x ∷ xs)) (contains-first x.id (ids_of xs)),
      )
