-- ===== src/Planning/Frozen.antt =====
-- What an input that passes the check against the frozen baseline shares with it.
use night_voyager.Base.Results.{ok}
use night_voyager.Base.ListLaws.{any-false, All-imp}
use night_voyager.Base.{
  Bool-cases, Option-cases, or_false, and_true, ◌==◌, ◌!=◌, nat_eq, string_eq, eq_of_beq, option_eq,
  any, All, list_eq, ◌≡◌, ◌⊎◌, inl, inr, true, false, some, List, arith,
}
use night_voyager.Planning.Enums.{
  evidence_authority_eq, evidence_class_eq, redistribution_class_eq, country_eq, route_outcome_eq,
  run_state_eq, case_state_eq,
}
use night_voyager.Planning.Models.{EvidenceRef, PlanningInput}
use night_voyager.Planning.Rows.{same_evidence}
use night_voyager.Planning.MixedBaseline.{
  external_claim, entry_in, evidence_by_claim, untraced, evidence_drifts,
  validate_governed_mixed_payload_baseline,
}

-- The item has the source and the authority of the baseline's item for its claim.
abbrev pub IsFrozen : List EvidenceRef → EvidenceRef → Type 0
IsFrozen baseline e =
    (b : EvidenceRef) × (evidence_by_claim baseline e.claim ≡ some b)
    × (e.authority ≡ b.authority)
    × (e.source_entry_id ≡ b.source_entry_id)
    × (e.source_sha256 ≡ b.source_sha256)

-- The check passed its test of the evidence.
no_drift :
    (baseline i : PlanningInput) {u : Unit {0}}
    → validate_governed_mixed_payload_baseline baseline i ≡ ok u
    → any (evidence_drifts baseline i) i.evidence ≡ false
unfolding validate_governed_mixed_payload_baseline
no_drift baseline i h = elim (Option-cases (evidence_by_claim i.evidence external_claim)) [
  | inl gone ↦ absurd (ground (arith, gone, h))
  | inr (external, found) ↦ ground (arith, found, h)
]

same_evidence-parts :
    (e b : EvidenceRef)
    → same_evidence e b ≡ true
    → (e.authority ≡ b.authority)
      × (e.source_entry_id ≡ b.source_entry_id)
      × (e.source_sha256 ≡ b.source_sha256)
unfolding same_evidence
same_evidence-parts e b h =
    let (_, h1) = and_true (e.schema_version == b.schema_version) _ h in
    let (_, h2) = and_true (e.claim == b.claim) _ h1 in
    let (_, h3) = and_true (e.source_pack_id == b.source_pack_id) _ h2 in
    let (entry, h4) = and_true (e.source_entry_id == b.source_entry_id) _ h3 in
    let (sha, authority) = and_true (e.source_sha256 == b.source_sha256) _ h4 in
    (eq_of_beq authority, eq_of_beq entry, eq_of_beq sha)

evidence_drifts-IsFrozen :
    (baseline i : PlanningInput) (e : EvidenceRef)
    → evidence_drifts baseline i e ≡ false
    → (e.claim ≡ external_claim) ⊎ IsFrozen baseline.evidence e
evidence_drifts-IsFrozen baseline i e h =
    let (_, h1) = or_false (e.organization_id != i.organization_id) _ h in
    let (_, h2) = or_false (e.source_pack_id != i.source_pack.pack_id) _ h1 in
    let (_, h3) = or_false (e.source_pack_version != i.source_pack.version) _ h2 in
    let (_, h4) = or_false (untraced e (entry_in i e.source_entry_id)) _ h3 in
    elim (Bool-cases (e.claim == external_claim)) [
      | inl external ↦ inl (eq_of_beq external)
      | inr other ↦ elim (Option-cases (evidence_by_claim baseline.evidence e.claim)) [
        | inl gone ↦ absurd (ground (arith, other, gone, h4))
        | inr (b, found) ↦
            let same : same_evidence e b ≡ true = ground (arith, other, found, h4) in
            let (authority, entry, sha) = same_evidence-parts e b same in
            inr (b, found, authority, entry, sha)
      ]
    ]

-- Every item but the external one is the baseline's.
pub validate_governed_mixed_payload_baseline-IsFrozen :
    (baseline i : PlanningInput) {u : Unit {0}}
    → validate_governed_mixed_payload_baseline baseline i ≡ ok u
    → All (λ e. (e.claim ≡ external_claim) ⊎ IsFrozen baseline.evidence e) i.evidence
validate_governed_mixed_payload_baseline-IsFrozen baseline i h =
    All-imp (evidence_drifts-IsFrozen baseline i) i.evidence
      (any-false (evidence_drifts baseline i) i.evidence (no_drift baseline i h))
