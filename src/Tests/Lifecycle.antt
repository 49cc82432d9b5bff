-- ===== src/Tests/Lifecycle.antt =====
-- A run's path, and the golden evaluation as its last step.
use night_voyager.Base.{length, ◌≤◌, ◌≡◌, refl, List, [], ◌∷◌}
use night_voyager.Base.Results.{ok, err}
use night_voyager.Planning.Enums.{RunState}
use night_voyager.Planning.Transitions.{transition_run, run_path}
use night_voyager.Planning.Lifecycle.{IsTerminal, run_path-length}

abbrev path : List RunState
path = RunState.collecting_evidence ∷ RunState.synthesizing ∷ RunState.blocked ∷ []

path_permitted : run_path RunState.draft path ≡ ok RunState.blocked
unfolding run_path transition_run
path_permitted = refl

run_path-length_example :
    (length path ≤ 3)
    × ((t : RunState)
        → IsTerminal RunState.blocked
        → transition_run RunState.blocked t ≡ err "invalid planning run transition")
run_path-length_example = run_path-length path path_permitted
