-- ===== src/Examples/Debounce.antt =====
-- internal/debounce/debounce.go: a trigger after a value that nobody took.
use fsrecon.Prelude.{◌+◌, ◌≡◌, refl, arith, not, ◌&&◌, leb, List, [], ◌∷◌, true}
use fsrecon.Debounce.{Step, triggers, passes, new, run, trigger, pass, pass_all, receive, is_ready}
use fsrecon.Debounce.Quiet.{total, trigger-is_ready}

abbrev before : List Step
before = triggers ∷ passes 4 ∷ triggers ∷ passes 7 ∷ []

trigger-is_ready_example :
    let t = pass_all (1 ∷ 2 ∷ []) (trigger (run before (new 3))) in
    (is_ready t ≡ leb 3 (total (1 ∷ 2 ∷ [])))
    × (is_ready (pass_all (5 ∷ []) (receive t))
        ≡ not (leb 3 (total (1 ∷ 2 ∷ []))) && leb 3 (total (1 ∷ 2 ∷ []) + total (5 ∷ [])))
trigger-is_ready_example = trigger-is_ready 3 before (1 ∷ 2 ∷ []) (5 ∷ []) (omega arith)

fires : is_ready (run (triggers ∷ passes 3 ∷ []) (new 3)) ≡ true
unfolding run trigger pass is_ready
fires = refl
