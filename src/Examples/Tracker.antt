-- ===== src/Examples/Tracker.antt =====
-- tracker.go: interleavings of a few steps.
use fsrecon.Prelude.{
  false, Str, ◌⊎◌, inr, none, ◌&&◌, ℕ, bytes, str_eq, sort, ◌≡◌, refl, true, List, [], ◌∷◌,
}
use fsrecon.Tracker.{
  new_life, begin, attach_backend, set_dirty_pending, mark_dirty, set_consistent_state, close, stop,
  set_state, state_dirty,
}
use fsrecon.FilePath.{clean, within, rel, starts_with}
use fsrecon.Normalize.{normalize, dir}
use fsrecon.Dirtyset.{
  new, add, relative_parts, mark, drain, get_child, set_child, count_dirty, collect,
}
use fsrecon.Tracker.Loop.{
  Loop, Turn, sees, elapses, fails, takes, run_loop, native_event, quiet_elapsed, native_error,
  handle_backend_error, take_dirty, add_dirty,
}
use fsrecon.Tracker.Lifecycle.{
  Act, begins, attaches, stores, marks, consistent, closes, sets, to_reconciling, run, new_machine,
  IsSound, run-IsSound, is_stopped, run-stays_stopped,
}
use fsrecon.Tracker.Create.{pos, RawConfig, new_tracker}
use fsrecon.Tracker.Accepted.{accepts, is_valid, has_batches, HasLimits, new_tracker-accepts}

-- A hint arrives while a reconciliation is running.
abbrev busy : List Act
busy = begins ∷ attaches ∷ sets to_reconciling ∷ stores ∷ consistent ∷ marks ∷ []

stays_dirty : (run busy new_machine).life.state ≡ state_dirty
unfolding run begin attach_backend set_dirty_pending mark_dirty set_consistent_state set_state
stays_dirty = refl

run-IsSound_example : IsSound (run busy new_machine)
run-IsSound_example = run-IsSound busy

closed : (run (begins ∷ closes ∷ []) new_machine).life.closed ≡ true
unfolding run begin close stop
closed = refl

run-stays_stopped_example :
    let m = run busy (run (begins ∷ closes ∷ []) new_machine) in
    (m.life.closed ≡ true) × (is_stopped m.life.state ≡ true)
run-stays_stopped_example = run-stays_stopped (begins ∷ closes ∷ []) busy closed

abbrev pub quiet_loop : Loop ℕ
quiet_loop = record {
  root = bytes "/r";
  life = new_life;
  dirty = new (bytes "/r");
  wake = false;
  armed = false;
  stopped_reported = false;
  events = [];
  event_buffer = 2;
  errors = [];
  events_received = 0;
  events_coalesced = 0;
  dirty_paths = 0;
  backend_overflows = 0;
  events_dropped = 0;
  scopes = [];
}

abbrev turns : List (Turn ℕ)
turns = sees (record { path = bytes "/r/d/f"; op = 1 }) ∷ elapses ∷ fails 3 true ∷ takes ∷ []

root_scope : (run_loop turns quiet_loop).scopes ≡ bytes "/r" ∷ []
unfolding run_loop native_event quiet_elapsed native_error handle_backend_error take_dirty add_dirty
    normalize dir clean within rel starts_with str_eq new add relative_parts mark drain get_child
    set_child count_dirty collect sort
root_scope = refl

-- The defaults, with a sink.
abbrev configured : RawConfig
configured = record {
  root = bytes "r/";
  has_sink = true;
  store_is_batch = none;
  symlink_policy = 0;
  hardlink_policy = 0;
  expected_scope = 0;
  debounce_window = pos 0;
  reconcile_interval = pos 0;
  event_buffer = pos 0;
  report_event_limit = pos 5;
  change_batch_size = pos 0;
}

abbrev absolute : Str → Str ⊎ Str
absolute path = inr path

new_tracker-accepts_example :
    (accepts (new_tracker absolute (inr (1 ∷ [])) configured)
      ≡ is_valid configured
        && accepts (absolute (1 ∷ []))
        && accepts (absolute configured.root)
        && has_batches absolute (inr (1 ∷ [])) configured)
    × HasLimits (new_tracker absolute (inr (1 ∷ [])) configured)
new_tracker-accepts_example = new_tracker-accepts absolute (inr (1 ∷ [])) configured
