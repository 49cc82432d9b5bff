-- ===== src/Planning/Rows.antt =====
-- Equality of the rows of planning/models.py, as pydantic compares them.
use night_voyager.Base.{
  ◌==◌, nat_eq, string_eq, option_eq, list_eq, Bool, true, false, not, ◌&&◌, ◌||◌, List, [], ◌∷◌,
}
use night_voyager.Calendar.{date_eq}
use night_voyager.Decimal.{Decimal, greater}
use night_voyager.Planning.Enums.{
  evidence_authority_eq, evidence_class_eq, redistribution_class_eq, country_eq, route_outcome_eq,
  run_state_eq, case_state_eq,
}
use night_voyager.Planning.Models.{SourcePackEntry, EvidenceRef, CostEvidence, RankingEvidence}

-- The members of two tuples of rows, compared in turn by `eq`.
abbrev pub rows_differ : {A : Type 0} → (A → A → Bool) → List A → List A → Bool
rows_differ eq [] [] = false
rows_differ eq (x ∷ xs) (y ∷ ys) = not (eq x y) || rows_differ eq xs ys
rows_differ eq _ _ = true

-- `==` on source pack entries.
unfoldable pub entry_beq : SourcePackEntry → SourcePackEntry → Bool
entry_beq a b =
    (a.schema_version == b.schema_version)
    && ((a.entry_id == b.entry_id)
        && ((a.path == b.path)
            && ((a.sha256 == b.sha256)
                && ((a.snapshot_date == b.snapshot_date)
                    && ((a.publisher == b.publisher)
                        && ((a.institution == b.institution)
                            && ((a.canonical_url == b.canonical_url)
                                && ((a.freshness_days == b.freshness_days)
                                    && ((a.redistribution_class == b.redistribution_class)
                                        && ((a.evidence_class == b.evidence_class)
                                            && ((a.coverage == b.coverage)
                                                && (a.known_gaps == b.known_gaps))))))))))))

-- `model_dump` without the organization, the evidence id and the version of the pack.
unfoldable pub same_evidence : EvidenceRef → EvidenceRef → Bool
same_evidence a b =
    (a.schema_version == b.schema_version)
    && ((a.claim == b.claim)
        && ((a.source_pack_id == b.source_pack_id)
            && ((a.source_entry_id == b.source_entry_id)
                && ((a.source_sha256 == b.source_sha256) && (a.authority == b.authority)))))

-- Decimals are equal by their values.
abbrev pub decimal_beq : Decimal → Decimal → Bool
decimal_beq a b = not (greater a b) && not (greater b a)

unfoldable pub cost_beq : CostEvidence → CostEvidence → Bool
cost_beq a b =
    (a.schema_version == b.schema_version)
    && ((a.organization_id == b.organization_id)
        && ((a.country == b.country)
            && ((a.intake == b.intake)
                && ((a.period == b.period)
                    && ((a.currency == b.currency)
                        && ((a.tuition_minor == b.tuition_minor)
                            && ((a.living_minor == b.living_minor)
                                && (decimal_beq a.fx_rate b.fx_rate
                                    && ((a.fx_source == b.fx_source)
                                        && ((a.fx_date == b.fx_date)
                                            && ((a.tuition_evidence_id == b.tuition_evidence_id)
                                                && ((a.living_evidence_id == b.living_evidence_id)
                                                    && (a.fx_evidence_id
                                                        == b.fx_evidence_id)))))))))))))

unfoldable pub ranking_beq : RankingEvidence → RankingEvidence → Bool
ranking_beq a b =
    (a.schema_version == b.schema_version)
    && ((a.organization_id == b.organization_id)
        && ((a.country == b.country)
            && ((a.ranking_system == b.ranking_system)
                && ((a.rank == b.rank)
                    && ((a.publication_year == b.publication_year)
                        && (a.evidence_id == b.evidence_id))))))
