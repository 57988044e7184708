-- ===== src/Reconcile/Gather.antt =====
-- `reconcileScopes` of reconcile.go up to the diff: the previous states of the scopes, the entries
-- that a scan finds, the expected entries, and the events between them.
use fsrecon.Prelude.{
  ℕ, Bool, true, false, ◌&&◌, Str, Map, Option, none, some, List, [], ◌∷◌, ◌++◌, put, remove, ltb,
  if◌then◌else◌, Result, ok, err, ◌>>=◌,
}
use fsrecon.State.{FileState, file_type_regular, file_type_directory, file_type_eq}
use fsrecon.Event.{Event, event_invalid, source_reconcile, ReconcileReport, zero_report}
use fsrecon.Delivery.{incr64}
use fsrecon.Scanner.{Entry, state_from_entry}
use fsrecon.Config.{
  Config, Ports, Stat, stat_found, stat_missing, stat_failed, allow_hardlinks, report_hardlinks,
  reject_hardlinks, expected_regular_files, expected_all_entries,
}
use fsrecon.Expected.{load_expected_scopes}
use fsrecon.Watchtree.{Backend, Tree, watch_failed, outside_root, add, sync}
use fsrecon.Convert.{
  to_internal_states, event_from_change, file_type_from_internal, note_event, note_events,
}
use fsrecon.Diff
use fsrecon.Reconcile.{
  Tracker, ScanFault, scan_error, add_watch_failed, hardlink_rejected, Failure, snapshot_failed,
  stat_scope_failed, scan_failed, symlink_rejected, sync_watches_failed, expected_failed,
}

-- The local variables of `reconcileScopes` beside the tracker.
pub record Run (W B : Type 0) : Type 0 where
  pub tracker : Tracker W B
  pub report : ReconcileReport
  pub previous : Map FileState
  pub actual : Map FileState
  pub policy_events : List Event
  pub observed : Map (Unit {0})
  pub expected : Option (Map Diff.Expected)
  pub all_events : List Event

abbrev pub new_run : {W B : Type 0} → Str → ℕ → Tracker W B → Run W B
new_run root generation t = record {
  tracker = t;
  report = record zero_report { generation = generation };
  previous = [];
  actual = [];
  policy_events = [];
  observed = put [] root tt;
  expected = none;
  all_events = [];
}

unfoldable pub put_states : List FileState → Map FileState → Map FileState
put_states [] m = m
put_states (s ∷ states) m = put_states states (put m s.path s)

abbrev pub invalid_event : FileState → Event
invalid_event s = record {
  kind = event_invalid;
  path = s.path;
  old_path = [];
  before = none;
  after = some s;
  source = source_reconcile;
}

module _ {W B E : Type 0} (config : Config W E) (ports : Ports W E) (backend : Backend B E) where
  -- The states that the store has for the scopes.
  unfoldable pub load_previous : List Str → Run W B → Result (Failure E) (Run W B)
  load_previous [] r = ok r
  load_previous (scope ∷ scopes) r =
      let s = ports.walk_snapshot scope r.tracker.world in
      let r' : Run W B = record r { previous = put_states s.items r.previous } in
      elim s.fault [ some e ↦ err (snapshot_failed scope e) r' | none ↦ load_previous scopes r' ]

  abbrev pub set_tree : Run W B → Tree B → Run W B
  set_tree r tree = record r { tracker = record r.tracker { watch_tree = some tree } }

  -- A directory below a recursive root is watched before its children are scanned.
  unfoldable pub watch_entry : FileState → Run W B → Result (ScanFault E) (Run W B)
  watch_entry state r =
      if file_type_eq state.file_type file_type_directory && config.recursive
      then (elim r.tracker.watch_tree [
        | none ↦ ok (record r { observed = put r.observed state.path tt })
        | some tree ↦ elim (add backend state.path tree) [
          | err e tree' ↦ err (add_watch_failed e) (set_tree r tree')
          | ok tree' ↦ ok (record (set_tree r tree') { observed = put r.observed state.path tt })
        ]
      ])
      else ok r

  -- The policy for a regular file that has several links.
  unfoldable pub check_links : Entry → FileState → Run W B → Result (ScanFault E) (Run W B)
  check_links entry state r =
      if file_type_eq state.file_type file_type_regular && ltb 1 entry.links
      then (elim config.hardlink_policy [
        | reject_hardlinks ↦ err (hardlink_rejected entry.path) r
        | report_hardlinks ↦
            ok (record r { policy_events = r.policy_events ++ invalid_event state ∷ [] })
        | allow_hardlinks ↦ ok r
      ])
      else ok r

  abbrev pub keep_entry : FileState → Run W B → Result (ScanFault E) (Run W B)
  keep_entry state r = ok (record r {
    actual = put r.actual state.path state;
    report = record r.report { scanned = incr64 r.report.scanned };
  })

  -- The callback of the scan.
  unfoldable pub scan_entry : Entry → Run W B → Result (ScanFault E) (Run W B)
  unfolding watch_entry check_links
  scan_entry entry r =
      watch_entry (state_from_entry entry) r
      >>= check_links entry (state_from_entry entry)
      >>= keep_entry (state_from_entry entry)

  unfoldable pub scan_entries : List Entry → Option E → Run W B → Result (ScanFault E) (Run W B)
  unfolding scan_entry
  scan_entries [] none r = ok r
  scan_entries [] (some e) r = err (scan_error e) r
  scan_entries (entry ∷ entries) fault r = scan_entry entry r >>= scan_entries entries fault

  -- `errors.Is(err, test)` on the error of a scan; its own errors wrap no such error.
  abbrev pub fault_is : (E → Bool) → ScanFault E → Bool
  fault_is test (scan_error e) = test e
  fault_is test (add_watch_failed (watch_failed e)) = test e
  fault_is test (add_watch_failed (outside_root p)) = false
  fault_is test (hardlink_rejected p) = false

  abbrev pub scan_outcome : Str → Result (ScanFault E) (Run W B) → Result (Failure E) (Run W B)
  scan_outcome scope (ok r) = ok r
  scan_outcome scope (err f r) =
      if fault_is (λ e. ports.is_not_exist e) f
      then ok r
      else if fault_is (λ e. ports.is_symlink_error e) f
      then err (symlink_rejected scope f) r
      else err (scan_failed scope f) r

  -- The scan does not hand over its root, so that a directory's own state is no previous one.
  abbrev pub enter_scope : Bool → Str → Run W B → Run W B
  enter_scope false scope r = r
  enter_scope true scope r = record r {
    previous = remove r.previous scope;
    observed = put r.observed scope tt;
  }

  -- One scope, from what `os.Lstat` says of it.
  unfoldable pub scan_scope : Str → Run W B → Stat E → Result (Failure E) (Run W B)
  unfolding scan_entries
  scan_scope scope r stat_missing = ok r
  scan_scope scope r (stat_failed e) = err (stat_scope_failed scope e) r
  scan_scope scope r (stat_found d) =
      let s = ports.scan scope r.tracker.world in
      scan_outcome scope (scan_entries s.items s.fault (enter_scope d scope r))

  unfoldable pub scan_scopes : List Str → Run W B → Result (Failure E) (Run W B)
  unfolding scan_scope
  scan_scopes [] r = ok r
  scan_scopes (scope ∷ scopes) r =
      scan_scope scope r (ports.lstat scope r.tracker.world) >>= scan_scopes scopes

  unfoldable pub sync_watches : List Str → Run W B → Result (Failure E) (Run W B)
  sync_watches scopes r =
      if config.recursive
      then (elim r.tracker.watch_tree [
        | none ↦ ok r
        | some tree ↦ elim (sync backend scopes r.observed tree) [
          | err e tree' ↦ err (sync_watches_failed e) (set_tree r tree')
          | ok tree' ↦ ok (set_tree r tree')
        ]
      ])
      else ok r

  unfoldable pub load_expected : List Str → Run W B → Result (Failure E) (Run W B)
  load_expected scopes r = elim (load_expected_scopes config ports scopes r.tracker.world) [
    | err e m ↦ err (expected_failed e) r
    | ok m ↦ ok (record r { expected = m })
  ]

  abbrev pub orphan_eligible : Diff.State → Bool
  orphan_eligible s = elim config.expected_scope [
    | expected_all_entries ↦ true
    | expected_regular_files ↦ file_type_eq (file_type_from_internal s.file_type) file_type_regular
  ]

  -- The callback of the diff.
  unfoldable pub record_change : Diff.Change → Run W B → Result (Failure E) (Run W B)
  unfolding event_from_change
  record_change change r = ok (record r {
    report = note_event config.report_event_limit (event_from_change change) r.report;
    all_events = r.all_events ++ event_from_change change ∷ [];
  })

  unfoldable pub diff_states : Run W B → Result (Failure E) (Run W B)
  unfolding record_change
  diff_states r =
      Diff.walk_diff_scoped record_change (to_internal_states r.previous)
        (to_internal_states r.actual) r.expected (some orphan_eligible) r

  abbrev pub add_policy_events : Run W B → Result (Failure E) (Run W B)
  add_policy_events r = ok (record r {
    report = note_events config.report_event_limit r.policy_events r.report;
    all_events = r.all_events ++ r.policy_events;
  })

  -- All of it, in the order of the source.
  unfoldable pub gather : List Str → Run W B → Result (Failure E) (Run W B)
  unfolding load_previous scan_scopes sync_watches load_expected diff_states
  gather scopes r =
      load_previous scopes r
      >>= scan_scopes scopes
      >>= sync_watches scopes
      >>= load_expected scopes
      >>= diff_states
      >>= add_policy_events
