-- ===== src/Examples/Observer.antt =====
-- observer.go and internal/normalize/normalize.go on a few hints.
use fsrecon.Prelude.{
  ℕ, ◌≡◌, refl, Str, bytes, str_eq, none, inr, err, ok, ◌+◌, Result, final, true, false, List, [],
  ◌∷◌, arith, get, put,
}
use fsrecon.FilePath.{
  clean, clean_parts, resolve, split, render, join_parts, rel, rel_parts, starts_with, within,
}
use fsrecon.Scanner.{is_symlink, is_dir}
use fsrecon.Scanner.Walk.{ignore_symlinks}
use fsrecon.Watchtree.{Backend, new, add}
use fsrecon.Observer.Collect.{
  ObserverPorts, CollectConfig, Collector, within_observer, handle_raw, walk_observer_directories,
  visit_directory, visit_directories,
}
use fsrecon.Observer.Start.{Session, ObserverStartError, start_observer, close_observer}
use fsrecon.Names.{observer_state_name}
use fsrecon.Observer.Collected.{handle_raw-announced}
use fsrecon.Normalize.{RawEvent}
use fsrecon.Observer.{
  Observer, Hint, hint_path, hint_subtree, hint_native_change, observer_created, set_observer_state,
  observer_running, root_hint_of, enqueue, flush,
}
use fsrecon.Observer.Bounds.{
  IsBounded, is_keyed, Move, enqueues, flushes, receives, degrades, run, run-IsBounded,
}
use fsrecon.Observer.Announced.{announced, any_speaks, flush-announced}

abbrev watching_with : {E : Type 0} → Observer E
watching_with = record {
  root = bytes "/r";
  hint_buffer = 1;
  max_pending_hints = 2;
  state = observer_running;
  hints = [];
  errors = [];
  pending = [];
  root_pending = false;
  root_hint = root_hint_of [] hint_native_change;
  emitted = 0;
  coalesced = 0;
  dropped = 0;
}

abbrev watching : Observer ℕ
watching = watching_with

abbrev hint : Str → Hint
hint path = record { path = path; scope = hint_path; cause = hint_native_change }

abbrev events : List (Move ℕ)
events =
    enqueues (hint (bytes "/r/a"))
    ∷ enqueues (hint (bytes "/r/b"))
    ∷ flushes
    ∷ degrades 7
    ∷ flushes
    ∷ receives
    ∷ flushes
    ∷ []

watching-IsBounded : IsBounded watching
unfolding is_keyed
watching-IsBounded = record {
  room = omega arith;
  channel = omega arith;
  error_room = omega arith;
  alone = λ h. refl;
  keyed = refl;
  rooted = λ h. absurd (ground arith);
  wide = λ h. refl;
}

run-IsBounded_example : IsBounded (run events watching)
run-IsBounded_example = run-IsBounded events watching watching-IsBounded

-- A hint for a whole directory is dropped where one for its path alone waits already.
narrow_wins :
    (enqueue
      (record { path = bytes "/r/a"; scope = hint_subtree; cause = hint_native_change })
      (enqueue (hint (bytes "/r/a")) watching)).pending
    ≡ (bytes "/r/a", hint (bytes "/r/a")) ∷ []
unfolding enqueue str_eq get put
narrow_wins = refl

abbrev waiting : Observer ℕ
waiting = record watching { pending = (bytes "/r/a", hint (bytes "/r/a")) ∷ [] }

waiting-IsBounded : IsBounded waiting
unfolding is_keyed str_eq
waiting-IsBounded = record {
  room = omega arith;
  channel = omega arith;
  error_room = omega arith;
  alone = λ h. absurd (ground arith);
  keyed = refl;
  rooted = λ h. absurd (ground arith);
  wide = λ h. refl;
}

is_announced : announced (bytes "/r/a") waiting ≡ true
unfolding announced get str_eq
is_announced = refl

flush-announced_example : announced (bytes "/r/a") (flush waiting) ≡ true
flush-announced_example = flush-announced waiting (bytes "/r/a") waiting-IsBounded is_announced

abbrev raw : RawEvent
raw = record { path = bytes "/r/d/f"; op = 4 }

-- A collector whose watcher refuses everything.
abbrev refusing : Backend ℕ Str
refusing = record {
  add_watch = λ path n. err (bytes "refused") n;
  remove_watch = λ path n. err (bytes "refused") n;
  is_already_gone = λ e. false;
}

-- A watcher that counts the watches.
abbrev accepting : Backend ℕ Str
accepting = record {
  add_watch = λ path n. ok (n + 1);
  remove_watch = λ path n. ok n;
  is_already_gone = λ e. false;
}

abbrev quiet_ports : ObserverPorts Str
quiet_ports = record {
  lstat = λ path. inr 420;
  stat = λ path. inr 2147484141;
  walk_dir = λ path. [];
}

abbrev collecting : CollectConfig
collecting = record { recursive = true; filter = none; symlink_policy = ignore_symlinks }

abbrev collector : Collector ℕ Str
collector = record {
  observer = watching_with;
  tree = new (bytes "/r") 0;
  received = 0;
  overflows = 0;
}

abbrev written : RawEvent
written = record { path = bytes "/r/a"; op = 2 }

handle_raw-announced_example :
    announced (bytes "/r/a") (handle_raw collecting quiet_ports refusing written collector).observer
    ≡ true
handle_raw-announced_example =
    handle_raw-announced collecting quiet_ports refusing (bytes "/r/a") written collector (
      unfold announced within_observer clean clean_parts resolve split render join_parts rel
        rel_parts starts_with str_eq get any_speaks in
      refl)

-- The observer before it starts, and what a walk of its root visits.
abbrev fresh : Session ℕ Str
fresh = record {
  observer = record watching_with { state = observer_created; pending = []; root_pending = false };
  tree = none;
  received = 0;
  overflows = 0;
  cancelled = false;
  native_closed = false;
  outputs_closed = false;
}

abbrev root_ports : ObserverPorts Str
root_ports = record quiet_ports {
  walk_dir =
      λ path. record { path = path; fault = none; is_link = false; is_directory = true } ∷ [];
}

abbrev started : Result (ObserverStartError Str) (Session ℕ Str)
started = start_observer collecting root_ports accepting (inr (new (bytes "/r") 0)) fresh

starts : (final started).observer.root_pending ≡ true
unfolding start_observer walk_observer_directories visit_directories visit_directory add new enqueue
    set_observer_state is_symlink is_dir str_eq clean clean_parts resolve split render join_parts
    rel rel_parts starts_with within get put
starts = refl

named : observer_state_name (close_observer (final started)).observer.state ≡ bytes "STOPPED"
unfolding close_observer start_observer str_eq within rel new clean get put
named = refl
