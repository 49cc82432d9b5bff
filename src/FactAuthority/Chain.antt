-- ===== src/FactAuthority/Chain.antt =====
-- The facts of a key as a chain: each supersedes the one before it.
use night_voyager.Base.{
  Bool-cases, ◌==◌, nat_eq, string_eq, option_eq, any, find_first, count_if, contains, list_eq, ◌+◌,
  ◌≡◌, refl, ap, ◌∙◌, inl, inr, Bool, true, false, ◌&&◌, some, List, [], ◌∷◌, map, arith,
}
use night_voyager.Planning.Enums.{
  evidence_authority_eq, evidence_class_eq, redistribution_class_eq, country_eq, route_outcome_eq,
  run_state_eq, case_state_eq,
}
use night_voyager.Planning.Models.{Uuid}
use night_voyager.Collaboration.Models.{
  FactKey, fact_key_beq_iff, fact_key_eq, memory_candidate_state_eq, verification_decision_eq,
}
use night_voyager.FactAuthority.Rows.{FactRow, key_of}
use night_voyager.FactAuthority.Verify.{
  is_successor_fact, is_head, prior_fact, id_of_fact, version_of_fact,
}

abbrev pub has_key : FactKey → FactRow → Bool
has_key key f = key_of f == key

-- A fact supersedes the latest fact of its key, if there is one, and its version counts them.
abbrev pub IsChained : List FactRow → Type 0
IsChained [] = Unit
IsChained (f ∷ fs) =
    (f.supersedes_fact_id ≡ id_of_fact (find_first (has_key (key_of f)) fs))
    × (f.fact_version ≡ count_if (has_key (key_of f)) fs + 1)
    × (contains f.id (map (λ g. g.id) fs) ≡ false)
    × IsChained fs

id_of_fact-find_first :
    (i : Uuid) (p : FactRow → Bool) (fs : List FactRow)
    → contains i (map (λ g. g.id) fs) ≡ false
    → (id_of_fact (find_first p fs) == some i) ≡ false
id_of_fact-find_first i p [] h = refl
id_of_fact-find_first i p (f ∷ fs) h =
    ground (arith, id_of_fact-find_first i p fs (ground (arith, h)))

-- No fact of a chain points to an id outside of it.
outside :
    (f : FactRow) (fs : List FactRow)
    → IsChained fs
    → contains f.id (map (λ g. g.id) fs) ≡ false
    → any (is_successor_fact f) fs ≡ false
unfolding is_successor_fact
outside f [] chain h = refl
outside f (g ∷ gs) (supersedes, _, _, chain) h = ground (
  arith,
  supersedes,
  id_of_fact-find_first f.id (has_key (key_of g)) gs (ground (arith, h)),
  outside f gs chain (ground (arith, h)),
)

first-is_head : (g : FactRow) (gs : List FactRow) → IsChained (g ∷ gs) → is_head (g ∷ gs) g ≡ true
unfolding is_head is_successor_fact
first-is_head g gs (supersedes, version, unused, chain) = ground (
  arith,
  supersedes,
  id_of_fact-find_first g.id (has_key (key_of g)) gs unused,
  outside g gs chain unused,
)

pub find_first-cong :
    (p q : FactRow → Bool) (fs : List FactRow)
    → ((f : FactRow) → p f ≡ q f)
    → find_first p fs ≡ find_first q fs
find_first-cong p q [] same = refl
find_first-cong p q (f ∷ fs) same = ground (arith, same f, find_first-cong p q fs same)

-- A fact of another key before the others is of no account.
is_head-other :
    (key : FactKey) (g : FactRow) (gs : List FactRow) (f : FactRow)
    → has_key key g ≡ false
    → (has_key key f && is_head (g ∷ gs) f) ≡ (has_key key f && is_head gs f)
unfolding is_head is_successor_fact
is_head-other key g gs f other = ground (arith, fact_key_beq_iff (key_of f) key)

-- The fact of a key that none supersedes is the latest of the key.
pub prior_fact-first :
    (key : FactKey) (fs : List FactRow)
    → IsChained fs
    → prior_fact key fs ≡ find_first (has_key key) fs
unfolding prior_fact
prior_fact-first key [] chain = refl
prior_fact-first key (g ∷ gs) (supersedes, version, unused, chain) =
    elim (Bool-cases (has_key key g)) [
      | inl here ↦ ground (arith, here, first-is_head g gs (supersedes, version, unused, chain))
      | inr other ↦ rw other (
          find_first-cong (λ f. has_key key f && is_head (g ∷ gs) f)
            (λ f. has_key key f && is_head gs f) gs (λ f. is_head-other key g gs f other)
          ∙ prior_fact-first key gs chain)
    ]

pub version-count_if :
    (key : FactKey) (fs : List FactRow)
    → IsChained fs
    → version_of_fact (find_first (has_key key) fs) ≡ count_if (has_key key) fs
version-count_if key [] chain = refl
version-count_if key (f ∷ fs) (_, version, _, chain) = elim (Bool-cases (has_key key f)) [
  | inl here ↦ rw here (
      version
      ∙ ap (λ k. count_if (has_key k) fs + 1) ((fact_key_beq_iff (key_of f) key).0 here)
      ∙ omega arith)
  | inr other ↦ rw other (version-count_if key fs chain)
]
