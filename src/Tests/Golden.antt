-- ===== src/Tests/Golden.antt =====
-- The planning input of fixtures/m3a/manifest.json, with short ids and digests.
use night_voyager.Base.{ℕ, String, true, false, none, some, List, [], ◌∷◌}
use night_voyager.Calendar.{Date}
use night_voyager.Planning.Enums.{
  EvidenceAuthority, accepted_synthetic_demo, externally_verified, synthetic_demo, synthetic_public,
  australia, japan, malaysia, RiskTolerance,
}
use night_voyager.Planning.Models.{
  BudgetEnvelope, StudentPreferences, FamilyPreferences, StudentCaseRevision, SourcePackEntry,
  SourcePackManifest, EvidenceRef, CostEvidence, RankingEvidence, InputKind, synthetic,
  governed_mixed, PlanningInput,
}

abbrev day : Date
day = record { year = 2026; month = 7; day = 1 }

abbrev pub budget : BudgetEnvelope
budget = record {
  schema_version = 1;
  currency = "CNY";
  period = "program_total";
  preferred_minor = some 34_000_000;
  hard_ceiling_minor = some 40_000_000;
  elasticity_bps = 1000;
  refused = false;
}

abbrev pub student : StudentPreferences
student = record {
  schema_version = 1;
  intended_field = "computing";
  preferred_countries = australia ∷ japan ∷ malaysia ∷ [];
  intake = "2027-02";
}

abbrev pub family : FamilyPreferences
family = record {
  schema_version = 1;
  risk_tolerance = RiskTolerance.high;
  japan_risk_accepted = true;
  budget = budget;
}

abbrev pub case_revision : StudentCaseRevision
case_revision = record {
  schema_version = 1;
  organization_id = 10;
  case_id = 40;
  revision = 1;
  student = student;
  family = family;
}

abbrev entry : ℕ → String → List String → SourcePackEntry
entry id sha coverage = record {
  schema_version = 1;
  entry_id = id;
  path = "sources/source.txt";
  sha256 = sha;
  snapshot_date = day;
  publisher = "Synthetic Demo Publisher";
  institution = "Synthetic Institution";
  canonical_url = "https://example.invalid/source";
  freshness_days = 365;
  redistribution_class = synthetic_public;
  evidence_class = synthetic_demo;
  coverage = coverage;
  known_gaps = [];
}

abbrev pub source_pack : SourcePackManifest
source_pack = record {
  schema_version = 1;
  organization_id = 10;
  pack_id = 50;
  version = 1;
  entries =
      entry 511 "ec5c" (
        "australia_program_fit" ∷ "australia_tuition" ∷ "australia_living_cost" ∷ "australia_fx"
        ∷ "australia_ranking" ∷ [])
      ∷ entry 512 "02aa" ("japan_program_fit" ∷ [])
      ∷ entry 513 "6c9c" ("malaysia_context" ∷ [])
      ∷ [];
}

abbrev pub item : EvidenceAuthority → ℕ → String → ℕ → String → EvidenceRef
item authority id claim entry_id sha = record {
  schema_version = 1;
  organization_id = 10;
  evidence_id = id;
  claim = claim;
  source_pack_id = 50;
  source_pack_version = 1;
  source_entry_id = entry_id;
  source_sha256 = sha;
  authority = authority;
}

abbrev pub evidence_with : EvidenceAuthority → List EvidenceRef
evidence_with authority =
    item authority 601 "australia_program_fit" 511 "ec5c"
    ∷ item accepted_synthetic_demo 602 "australia_tuition" 511 "ec5c"
    ∷ item accepted_synthetic_demo 603 "australia_living_cost" 511 "ec5c"
    ∷ item accepted_synthetic_demo 604 "australia_fx" 511 "ec5c"
    ∷ item accepted_synthetic_demo 605 "japan_program_fit" 512 "02aa"
    ∷ item accepted_synthetic_demo 606 "australia_ranking" 511 "ec5c"
    ∷ []

abbrev pub cost : CostEvidence
cost = record {
  schema_version = 1;
  organization_id = 10;
  country = australia;
  intake = "2027-02";
  period = "program_total";
  currency = "AUD";
  tuition_minor = 4_000_000;
  living_minor = 2_500_000;
  fx_rate = record { coefficient = 470; scale = 2 };
  fx_source = "Synthetic central-bank fixture";
  fx_date = day;
  tuition_evidence_id = 602;
  living_evidence_id = 603;
  fx_evidence_id = 604;
}

abbrev pub ranking : RankingEvidence
ranking = record {
  schema_version = 1;
  organization_id = 10;
  country = australia;
  ranking_system = "synthetic_demo_scale";
  rank = 10;
  publication_year = 2026;
  evidence_id = 606;
}

abbrev pub golden_of : InputKind → EvidenceAuthority → PlanningInput
golden_of kind authority = record {
  kind = kind;
  schema_version = 1;
  organization_id = 10;
  case = case_revision;
  source_pack = source_pack;
  evidence = evidence_with authority;
  costs = cost ∷ [];
  rankings = ranking ∷ [];
  narrative = none;
}

abbrev pub golden : PlanningInput
golden = golden_of synthetic accepted_synthetic_demo

abbrev pub golden_mixed : PlanningInput
golden_mixed = golden_of governed_mixed externally_verified
