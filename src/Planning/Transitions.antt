-- ===== src/Planning/Transitions.antt =====
-- planning/transitions.py: the permitted moves of a planning run and of a student case.
use night_voyager.Base.Results.{Result, ok, err, ◌>>=◌}
use night_voyager.Base.{
  if◌then◌else◌, nat_eq, string_eq, option_eq, contains, list_eq, not, List, [], ◌∷◌,
}
use night_voyager.Planning.Enums.{
  evidence_authority_eq, redistribution_class_eq, country_eq, route_outcome_eq, RunState,
  run_state_eq, CaseState, case_state_eq,
}

-- `RUN_TRANSITIONS`
abbrev pub run_transitions : RunState → List RunState
run_transitions RunState.draft = RunState.collecting_evidence ∷ RunState.failed ∷ []
run_transitions RunState.collecting_evidence = RunState.synthesizing ∷ RunState.failed ∷ []
run_transitions RunState.synthesizing =
    RunState.failed ∷ RunState.blocked ∷ RunState.review_required ∷ []
run_transitions RunState.failed = []
run_transitions RunState.blocked = []
run_transitions RunState.review_required = []

-- `CASE_TRANSITIONS`
abbrev pub case_transitions : CaseState → List CaseState
case_transitions CaseState.intake = CaseState.planning ∷ []
case_transitions CaseState.planning = []
case_transitions CaseState.advisor_review = []
case_transitions CaseState.family_review = []
case_transitions CaseState.decided = []
case_transitions CaseState.plan_ready = []

unfoldable pub transition_run : RunState → RunState → Result RunState
transition_run current target =
    if not (contains target (run_transitions current))
    then err "invalid planning run transition"
    else ok target

unfoldable pub transition_case : CaseState → CaseState → Result CaseState
transition_case current target =
    if not (contains target (case_transitions current))
    then err "invalid student case transition"
    else ok target

-- A sequence of requested transitions, each of which must be permitted.
unfoldable pub run_path : RunState → List RunState → Result RunState
run_path s [] = ok s
run_path s (t ∷ ts) = do u ← transition_run s t; run_path u ts
