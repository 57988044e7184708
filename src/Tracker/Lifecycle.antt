-- ===== src/Tracker/Lifecycle.antt =====
-- tracker.go: what holds of the lifecycle in every interleaving of the goroutines that share a
-- tracker: the caller of `Start`, `Reconcile` and `Close`, the run loop and the reconciler.
use fsrecon.Prelude.{◌≡◌, refl, Bool, true, false, List, [], ◌∷◌, ◌∙◌, arith, final}
use fsrecon.Tracker.{
  TrackerState, state_created, state_starting, state_syncing, state_synced, state_dirty,
  state_reconciling, state_stopped, state_degraded, Life, new_life, set_state,
  mark_backend_unhealthy, mark_dirty, set_consistent_state, begin, attach_backend, stop, close,
  set_dirty_pending,
}

-- The states that the source passes to `setState`.
pub data Target : Type 0 where
  to_dirty to_syncing to_reconciling : Target

abbrev pub target_state : Target → TrackerState
target_state to_dirty = state_dirty
target_state to_syncing = state_syncing
target_state to_reconciling = state_reconciling

-- The steps of all goroutines. A hint stores the flag (`stores`), then marks the tracker as dirty
-- (`marks`); the reconciler that takes the dirty set clears the flag (`drains`).
pub data Act : Type 0 where
  begins attaches stores drains marks unhealthy consistent stops closes : Act
  sets : Target → Act

-- A lifecycle, and whether a hint has stored the flag and not yet marked the tracker.
pub record Machine : Type 0 where
  pub life : Life
  pub marking : Bool

abbrev pub new_machine : Machine
new_machine = record { life = new_life; marking = false }

abbrev pub act_life : Act → Life → Life
act_life begins l = final (begin l)
act_life attaches l = attach_backend l
act_life stores l = set_dirty_pending true l
act_life drains l = set_dirty_pending false l
act_life marks l = mark_dirty l
act_life unhealthy l = mark_backend_unhealthy l
act_life consistent l = set_consistent_state l
act_life stops l = stop l
act_life closes l = close l
act_life (sets target) l = set_state (target_state target) l

abbrev pub act_marking : Act → Bool → Bool
act_marking stores b = true
act_marking marks b = false
act_marking begins b = b
act_marking attaches b = b
act_marking drains b = b
act_marking unhealthy b = b
act_marking consistent b = b
act_marking stops b = b
act_marking closes b = b
act_marking (sets target) b = b

abbrev pub act : Act → Machine → Machine
act a m = record { life = act_life a m.life; marking = act_marking a m.marking }

unfoldable pub run : List Act → Machine → Machine
run [] m = m
run (a ∷ acts) m = run acts (act a m)

abbrev pub is_stopped : TrackerState → Bool
is_stopped state_stopped = true
is_stopped state_created = false
is_stopped state_starting = false
is_stopped state_syncing = false
is_stopped state_synced = false
is_stopped state_dirty = false
is_stopped state_reconciling = false
is_stopped state_degraded = false

-- A closed tracker is stopped, and only a closed one; a synced one that was started has a healthy
-- backend, and no hint waits, unless it is about to mark the tracker.
pub record IsSound (m : Machine) : Type 0 where
  pub stopped : is_stopped m.life.state ≡ m.life.closed
  pub healthy : m.life.state ≡ state_synced → m.life.started ≡ true → m.life.backend_healthy ≡ true
  pub settled : m.life.state ≡ state_synced → m.life.dirty_pending ≡ true → m.marking ≡ true

act-IsSound : (a : Act) (m : Machine) → IsSound m → IsSound (act a m)
unfolding begin attach_backend set_dirty_pending mark_dirty mark_backend_unhealthy
    set_consistent_state stop close set_state
act-IsSound begins m h = record {
  stopped = ground arith;
  healthy = ground arith;
  settled = ground arith;
}
act-IsSound attaches m h = record {
  stopped = ground arith;
  healthy = ground arith;
  settled = ground arith;
}
act-IsSound stores m h = record {
  stopped = ground arith;
  healthy = ground arith;
  settled = ground arith;
}
act-IsSound drains m h = record {
  stopped = ground arith;
  healthy = ground arith;
  settled = ground arith;
}
act-IsSound marks m h = record {
  stopped = ground arith;
  healthy = ground arith;
  settled = ground arith;
}
act-IsSound unhealthy m h = record {
  stopped = ground arith;
  healthy = ground arith;
  settled = ground arith;
}
act-IsSound consistent m h = record {
  stopped = ground arith;
  healthy = ground arith;
  settled = ground arith;
}
act-IsSound stops m h = record {
  stopped = ground arith;
  healthy = ground arith;
  settled = ground arith;
}
act-IsSound closes m h = record {
  stopped = ground arith;
  healthy = ground arith;
  settled = ground arith;
}
act-IsSound (sets to_dirty) m h = record {
  stopped = ground arith;
  healthy = ground arith;
  settled = ground arith;
}
act-IsSound (sets to_syncing) m h = record {
  stopped = ground arith;
  healthy = ground arith;
  settled = ground arith;
}
act-IsSound (sets to_reconciling) m h = record {
  stopped = ground arith;
  healthy = ground arith;
  settled = ground arith;
}

new_machine-IsSound : IsSound new_machine
new_machine-IsSound = record { stopped = refl; healthy = ground arith; settled = ground arith }

run-IsSound_from : (acts : List Act) (m : Machine) → IsSound m → IsSound (run acts m)
unfolding run
run-IsSound_from [] m h = h
run-IsSound_from (a ∷ acts) m h = run-IsSound_from acts (act a m) (act-IsSound a m h)

-- In every interleaving of steps on a new tracker, it is stopped exactly when it is closed; while
-- it reports SYNCED after it was started its backend is healthy, and a hint that waits is one
-- whose own marking is still to come.
pub run-IsSound : (acts : List Act) → IsSound (run acts new_machine)
run-IsSound acts = run-IsSound_from acts new_machine new_machine-IsSound

act-closed : (a : Act) (m : Machine) → m.life.closed ≡ true → (act a m).life.closed ≡ true
unfolding begin attach_backend set_dirty_pending mark_dirty mark_backend_unhealthy
    set_consistent_state stop close set_state
act-closed begins m h = ground arith
act-closed attaches m h = ground arith
act-closed stores m h = ground arith
act-closed drains m h = ground arith
act-closed marks m h = ground arith
act-closed unhealthy m h = ground arith
act-closed consistent m h = ground arith
act-closed stops m h = ground arith
act-closed closes m h = ground arith
act-closed (sets target) m h = ground arith

run-closed :
    (acts : List Act) (m : Machine) → m.life.closed ≡ true → (run acts m).life.closed ≡ true
unfolding run
run-closed [] m h = h
run-closed (a ∷ acts) m h = run-closed acts (act a m) (act-closed a m h)

-- Once a tracker has been closed, it stays closed and reports STOPPED, whatever runs afterwards.
pub run-stays_stopped :
    (earlier later : List Act)
    → (run earlier new_machine).life.closed ≡ true
    → let m = run later (run earlier new_machine) in
      (m.life.closed ≡ true) × (is_stopped m.life.state ≡ true)
run-stays_stopped earlier later h =
    let m = run earlier new_machine in
    let closed = run-closed later m h in
    (closed, (run-IsSound_from later m (run-IsSound earlier)).stopped ∙ closed)
