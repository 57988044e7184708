-- ===== src/Examples/Fsnotify.antt =====
-- internal/backend/fsnotify/backend.go: a watcher that is closed while its pump still runs.
use fsrecon.Prelude.{inr, false, true, Str, bytes, List, [], ◌∷◌, ok}
use fsrecon.Fsnotify.{NativeOp, Library, new}
use fsrecon.Fsnotify.Safe.{
  Step, starts, adds, begins_close, ends_close, pumps_event, pumps_error, pump_ends, takes_event,
  run_steps, IsSafe, run_steps-new,
}

-- The paths that are watched.
abbrev library : Library (List Str) Str
library = record {
  new_watcher = λ buffer. inr [];
  add_watch = λ path watched. ok (path ∷ watched);
  remove_watch = λ path watched. ok watched;
  close_watcher = λ watched. ok [];
  is_non_existent_watch = λ e. false;
  is_not_exist = λ e. false;
  os_is_not_exist = λ e. false;
  is_invalid = λ e. false;
  is_event_overflow = λ e. false;
  on_linux = true;
}

abbrev written : NativeOp
written = record { create = false; write = true; remove = false; rename = false; chmod = false }

abbrev steps : List (Step Str)
steps =
    starts false (bytes "/r")
    ∷ adds (bytes "/r/d")
    ∷ pumps_event (bytes "/r/f") written
    ∷ begins_close
    ∷ ends_close
    ∷ pumps_error (bytes "late")
    ∷ pump_ends
    ∷ ends_close
    ∷ takes_event
    ∷ []

run_steps-new_example : IsSafe (run_steps library steps (new 1))
run_steps-new_example = run_steps-new library 1 steps
