-- ===== src/Observer/Start.antt =====
-- observer.go: `Start`, `Close` and `Stats` of an observer. Before it starts it has no watch tree;
-- the goroutines that `Start` leaves behind are the steps of Observer/Collect and `flush`.
use fsrecon.Prelude.{
  ℕ, Bool, true, false, ◌&&◌, ◌||◌, Option, none, some, ◌⊎◌, inl, inr, Result, ok, err,
  if◌then◌else◌,
}
use fsrecon.Scanner.{is_symlink}
use fsrecon.Watchtree.{Backend, Tree, count, add}
use fsrecon.Observer.{
  Observer, ObserverState, observer_created, observer_starting, observer_running, observer_degraded,
  observer_stopped, hint_startup, root_hint_of, set_observer_state, enqueue, pending_count,
}
use fsrecon.Observer.Collect.{
  ObserverError, ObserverPorts, CollectConfig, refuses_links, watched, walk_observer_directories,
}

-- An observer with what its methods share beside its hints.
pub record Session (K E : Type 0) : Type 0 where
  pub observer : Observer (ObserverError E)
  pub tree : Option (Tree K)
  pub received : ℕ
  pub overflows : ℕ
  pub cancelled : Bool
  pub native_closed : Bool
  pub outputs_closed : Bool

pub data ObserverStartError (E : Type 0) : Type 0 where
  observer_already_started root_symlink : ObserverStartError E
  observer_watcher_failed : E → ObserverStartError E
  directories_failed : ObserverError E → ObserverStartError E

abbrev pub is_created : ObserverState → Bool
is_created observer_created = true
is_created observer_starting = false
is_created observer_running = false
is_created observer_degraded = false
is_created observer_stopped = false

abbrev pub has_tree : {K : Type 0} → Option (Tree K) → Bool
has_tree none = false
has_tree (some t) = true

abbrev pub is_link_mode : {E : Type 0} → E ⊎ ℕ → Bool
is_link_mode (inl e) = false
is_link_mode (inr mode) = is_symlink mode

module _ {K E : Type 0} where
  abbrev pub set_session_state : ObserverState → Session K E → Session K E
  set_session_state state s = record s { observer = set_observer_state state s.observer }

  -- The watcher is started: the hint of the whole root is the first.
  abbrev pub run_observer : Session K E → Session K E
  run_observer s =
      let running = set_session_state observer_running s in
      record running {
        observer = enqueue (root_hint_of s.observer.root hint_startup) running.observer;
      }

  abbrev pub directories_watched :
      Session K E → Result (ObserverError E) (Tree K) → Result (ObserverStartError E) (Session K E)
  directories_watched s (ok t) = ok (run_observer (record s { tree = some t }))
  directories_watched s (err e t) = err (directories_failed e) (
      set_session_state observer_degraded
        (record s { tree = some t; native_closed = true; cancelled = true }))

module _ {K E : Type 0} (config : CollectConfig) (ports : ObserverPorts E)
    (backend : Backend K E) where
  abbrev pub with_tree : Session K E → Tree K → Result (ObserverStartError E) (Session K E)
  with_tree s t =
      if config.recursive
      then directories_watched s (
          walk_observer_directories config.symlink_policy
            (λ path tree. watched config ports backend (add backend path tree)) ports
            s.observer.root t)
      else ok (run_observer (record s { tree = some t }))

  -- The native watcher's start, as its error or the watcher.
  abbrev pub with_native : Session K E → E ⊎ Tree K → Result (ObserverStartError E) (Session K E)
  with_native s (inl e) =
      err (observer_watcher_failed e)
        (set_session_state observer_degraded (record s { cancelled = true }))
  with_native s (inr t) = with_tree s t

  -- `Start`
  unfoldable pub start_observer :
      E ⊎ Tree K → Session K E → Result (ObserverStartError E) (Session K E)
  unfolding is_symlink walk_observer_directories add set_observer_state enqueue
  start_observer native s =
      if is_created s.observer.state
      then (let starting = set_session_state observer_starting s in
          if is_link_mode (ports.lstat s.observer.root) && refuses_links config.symlink_policy
          then err root_symlink
              (set_session_state observer_degraded (record starting { cancelled = true }))
          else with_native starting native)
      else err observer_already_started s

module _ {K E : Type 0} where
  -- `Close`, whose work is done once; a watcher that was never started is not closed.
  unfoldable pub close_observer : Session K E → Session K E
  close_observer s = if s.outputs_closed then s else record s {
    observer = record s.observer { state = observer_stopped };
    cancelled = true;
    native_closed = s.native_closed || has_tree s.tree;
    outputs_closed = true;
  }

-- `treeCount`
unfoldable pub tree_count : {K : Type 0} → Option (Tree K) → ℕ
tree_count none = 0
tree_count (some t) = count t

-- `Stats`
pub record ObserverStats : Type 0 where
  pub native_events_received : ℕ
  pub hints_emitted : ℕ
  pub hints_coalesced : ℕ
  pub overflow_count : ℕ
  pub pending_hints : ℕ
  pub hint_delivery_deferred : ℕ
  pub watched_directories : ℕ

unfoldable pub stats : {K E : Type 0} → Session K E → ObserverStats
unfolding pending_count tree_count
stats s = record {
  native_events_received = s.received;
  hints_emitted = s.observer.emitted;
  hints_coalesced = s.observer.coalesced;
  overflow_count = s.overflows;
  pending_hints = pending_count s.observer;
  hint_delivery_deferred = s.observer.dropped;
  watched_directories = tree_count s.tree;
}
