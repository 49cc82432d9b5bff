-- ===== src/FactAuthority/Refs.antt =====
-- The facts that a revision refers to.
use night_voyager.Base.Equality.{◌==◌, ◌!=◌, nat_eq, string_eq, beq_refl, option_eq}
use night_voyager.Base.{
  Bool-cases, select, find_first, All, list_eq, ℕ, ◌+◌, ◌≤◌, ◌≡◌, refl, ap, ◌∙◌, inl, inr, Bool,
  false, ◌&&◌, Option, none, some, List, [], ◌∷◌, ◌++◌, map, arith,
}
use night_voyager.Base.ListLaws.{All-imp}
use night_voyager.Planning.Enums.{
  evidence_authority_eq, evidence_class_eq, redistribution_class_eq, country_eq, route_outcome_eq,
  run_state_eq, case_state_eq,
}
use night_voyager.Planning.Models.{Uuid}
use night_voyager.Collaboration.Models.{
  FactKey, fact_key_beq_iff, fact_key_eq, memory_candidate_state_eq, verification_decision_eq,
}
use night_voyager.FactAuthority.Rows.{FactRow, FactRefRow, key_of}
use night_voyager.FactAuthority.Verify.{is_head, prior_fact, id_of_fact, ref_of, kept_refs}
use night_voyager.FactAuthority.Chain.{has_key, IsChained, find_first-cong, prior_fact-first}

abbrev is_ref_at : ℕ → FactKey → FactRefRow → Bool
is_ref_at n key r = (r.case_revision == n) && (r.fact_key == key)

abbrev id_of_ref : Option FactRefRow → Option Uuid
id_of_ref none = none
id_of_ref (some r) = some r.confirmed_fact_id

-- The fact of a key that a revision refers to.
abbrev pub ref_at : ℕ → FactKey → List FactRefRow → Option Uuid
ref_at n key refs = id_of_ref (find_first (is_ref_at n key) refs)

abbrev or_else : Option Uuid → Option Uuid → Option Uuid
or_else none other = other
or_else (some id) other = some id

ref_at-kept :
    (n : ℕ) (key : FactKey) (q : FactRow → Bool) (fs : List FactRow) (old : List FactRefRow)
    → ref_at n key (map (ref_of n) (select q fs) ++ old)
      ≡ or_else (id_of_fact (find_first (λ f. has_key key f && q f) fs)) (ref_at n key old)
ref_at-kept n key q [] old = refl
ref_at-kept n key q (f ∷ fs) old = ground (arith, beq_refl n, ref_at-kept n key q fs old)

-- Not later than a revision.
abbrev pub IsUpTo : ℕ → FactRefRow → Type 0
IsUpTo n r = r.case_revision ≤ n

ref_at-later :
    (n : ℕ) (key : FactKey) (refs : List FactRefRow)
    → All (IsUpTo n) refs
    → ref_at (n + 1) key refs ≡ none
ref_at-later n key [] h = refl
ref_at-later n key (r ∷ rs) (here, h) = ground (arith, here, ref_at-later n key rs h)

IsUpTo-kept :
    (n : ℕ) (fs : List FactRow) (old : List FactRefRow)
    → All (IsUpTo n) old
    → All (IsUpTo n) (map (ref_of n) fs ++ old)
IsUpTo-kept n [] old h = h
IsUpTo-kept n (f ∷ fs) old h = (omega arith, IsUpTo-kept n fs old h)

-- The references that a confirmation adds.
abbrev pub next_refs : ℕ → FactRow → List FactRow → List FactRefRow → List FactRefRow
next_refs n f fs old = ref_of n f ∷ kept_refs n (key_of f) (f ∷ fs) ++ old

pub next_refs-IsUpTo :
    (n : ℕ) (f : FactRow) (fs : List FactRow) (old : List FactRefRow)
    → All (IsUpTo n) old
    → All (IsUpTo (n + 1)) (next_refs (n + 1) f fs old)
unfolding kept_refs
next_refs-IsUpTo n f fs old h =
    (omega arith, IsUpTo-kept (n + 1) _ old (All-imp (λ r below. omega (arith, below)) old h))

or_else-none : (x : Option Uuid) → or_else x none ≡ x
or_else-none none = refl
or_else-none (some id) = refl

ref_at-skip :
    (n : ℕ) (key : FactKey) (r : FactRefRow) (rs : List FactRefRow)
    → is_ref_at n key r ≡ false
    → ref_at n key (r ∷ rs) ≡ ref_at n key rs
ref_at-skip n key r rs h = rw h refl

other_key :
    (key : FactKey) (f g : FactRow) (head : Bool)
    → has_key key f ≡ false
    → (has_key key g && ((key_of g != key_of f) && head)) ≡ (has_key key g && head)
other_key key f g head other =
    ground (arith, fact_key_beq_iff (key_of g) key, fact_key_beq_iff (key_of g) (key_of f))

-- The key of another fact than the new one.
ref_at-other :
    (n : ℕ) (key : FactKey) (f : FactRow) (fs : List FactRow) (old : List FactRefRow)
    → IsChained (f ∷ fs)
    → All (IsUpTo n) old
    → has_key key f ≡ false
    → ref_at (n + 1) key (next_refs (n + 1) f fs old)
      ≡ id_of_fact (find_first (has_key key) (f ∷ fs))
unfolding kept_refs prior_fact
ref_at-other n key f fs old chain h other =
    let kept : FactRow → Bool = λ g. (key_of g != key_of f) && is_head (f ∷ fs) g in
    ref_at-skip (n + 1) key (ref_of (n + 1) f) (kept_refs (n + 1) (key_of f) (f ∷ fs) ++ old)
      (ground (arith, other))
    ∙ ref_at-kept (n + 1) key kept (f ∷ fs) old
    ∙ ap (or_else (id_of_fact (find_first (λ g. has_key key g && kept g) (f ∷ fs))))
        (ref_at-later n key old h)
    ∙ or_else-none (id_of_fact (find_first (λ g. has_key key g && kept g) (f ∷ fs)))
    ∙ ap id_of_fact (
        find_first-cong (λ g. has_key key g && kept g) (λ g. has_key key g && is_head (f ∷ fs) g)
          (f ∷ fs) (λ g. other_key key f g (is_head (f ∷ fs) g) other))
    ∙ ap id_of_fact (prior_fact-first key (f ∷ fs) chain)

-- After a confirmation the new revision refers to the latest fact of each key.
pub next_refs-latest :
    (n : ℕ) (key : FactKey) (f : FactRow) (fs : List FactRow) (old : List FactRefRow)
    → IsChained (f ∷ fs)
    → All (IsUpTo n) old
    → ref_at (n + 1) key (next_refs (n + 1) f fs old)
      ≡ id_of_fact (find_first (has_key key) (f ∷ fs))
next_refs-latest n key f fs old chain h = elim (Bool-cases (has_key key f)) [
  | inl here ↦ rw (here, beq_refl (n + 1)) refl
  | inr other ↦ ref_at-other n key f fs old chain h other
]
