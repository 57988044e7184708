-- ===== src/Examples/Interleaved.antt =====
-- tracker.go: the reconciler within `addDirty`.
use fsrecon.Prelude.{ℕ, str_eq, ◌≡◌, refl, true, false, List, [], ◌∷◌, sort}
use fsrecon.FilePath.{clean, within, rel, starts_with}
use fsrecon.Dirtyset.{
  new, add, relative_parts, mark, drain, get_child, set_child, count_dirty, collect,
}
use fsrecon.Tracker.{state_dirty, mark_dirty, set_consistent_state, set_state, set_dirty_pending}
use fsrecon.Tracker.Loop.{take_dirty}
use fsrecon.Tracker.Interleaved.{
  Part, proceeds, ticks, takes, begins, succeeds, Split, waiting, put_dirty, run_parts,
}
use fsrecon.Examples.Tracker.{quiet_loop}

-- A wake-up is left over, and the reconciler takes the root between the lock of the set and the flag.
abbrev overtaken : List (Part ℕ)
overtaken = ticks ∷ takes ∷ begins ∷ proceeds ∷ proceeds ∷ proceeds ∷ succeeds ∷ takes ∷ []

abbrev quiet_split : Split ℕ
quiet_split = record { loop = record quiet_loop { wake = true }; phase = waiting }

-- Nothing is dirty and nothing wakes the reconciler, and yet the state stays DIRTY.
stuck :
    let l = (run_parts overtaken quiet_split).loop in
    (l.life.state ≡ state_dirty) × (l.wake ≡ false) × (l.armed ≡ false) × (l.scopes ≡ [])
unfolding run_parts put_dirty take_dirty set_state mark_dirty set_consistent_state set_dirty_pending
    add drain new relative_parts mark get_child set_child count_dirty collect clean within rel
    starts_with str_eq sort
stuck = (refl, refl, refl, refl)
