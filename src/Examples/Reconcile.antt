-- ===== src/Examples/Reconcile.antt =====
-- reconcile.go on a root with one new file. The world counts the batches taken and the snapshots
-- applied.
use fsrecon.Reconcile.Ready.{gather-healthy}
use fsrecon.Reconcile.Commit.{healthy_of}
use fsrecon.Prelude.{
  arith, length, ℕ, ◌+◌, ◌≡◌, refl, str_eq, str_leb, sort, sorted_keys, keys, get, put, remove, Str,
  bytes, true, false, none, some, List, [], ◌∷◌, ok, err, final,
}
use fsrecon.State.{zero_file_state}
use fsrecon.Event.{zero_report}
use fsrecon.Delivery.{Sink}
use fsrecon.FilePath.{
  clean, clean_parts, resolve, split, render, join_parts, path_has_prefix, starts_with, ends_slash,
}
use fsrecon.Scopes.{collapse_scopes, covered}
use fsrecon.Scanner.{Entry, is_dir, is_symlink, is_regular, file_type, state_from_entry}
use fsrecon.Expected.{load_expected_scopes}
use fsrecon.Convert.{to_internal_states}
use fsrecon.Diff.{
  walk_diff_scoped, walk_existing, walk_moves, walk_rest, walk_created, walk_deleted,
  index_unique_ids, index_ids, remove_all,
}
use fsrecon.Config.{
  Config, Ports, Stat, stat_found, stat_failed, allow_hardlinks, expected_regular_files,
}
use fsrecon.Watchtree.{Backend}
use fsrecon.Tracker.{new_life, state_synced, state_dirty}
use fsrecon.Delivery.Batches.{offer, cut}
use fsrecon.Reconcile.{Tracker, Pending, pending_reconcile, stat_scope_failed}
use fsrecon.Reconcile.Gather.{
  Run, gather, load_previous, put_states, scan_scopes, scan_scope, scan_entries, scan_entry,
  watch_entry, check_links, sync_watches, load_expected, record_change, diff_states,
}
use fsrecon.Reconcile.Commit.{pending_of, reconcile_scopes, apply_snapshot}
use fsrecon.Reconcile.Order.{commit_world, IsCommitted}
use fsrecon.Reconcile.Retry.{
  first_run, reconcile_scopes-commits, reconcile_scopes-resume, reconcile_scopes-resume_synced,
  reconcile_scopes-failed,
}

abbrev pub World : Type 0
World = ℕ × ℕ

abbrev pub take_batch : Sink Str World
take_batch b (n, m) = ok (n + 1, m)

abbrev pub config : Config World Str
config = record {
  root = bytes "/r";
  recursive = false;
  expected = none;
  expected_scope = expected_regular_files;
  change_sink = some take_batch;
  filter = none;
  hardlink_policy = allow_hardlinks;
  event_buffer = 4;
  report_event_limit = 4;
  change_batch_size = 2;
}

abbrev pub new_file : Entry
new_file = record {
  path = bytes "/r/a";
  identity = bytes "7";
  size = 3;
  mod_time = 5;
  mode = 420;
  links = 1;
}

abbrev pub ports_with : Stat Str → Ports World Str
ports_with stat = record {
  lstat = λ path w. stat;
  scan = λ path w. record { items = new_file ∷ []; fault = none };
  walk_snapshot = λ path w. record { items = []; fault = none };
  get_snapshot = λ path w. ok none;
  put_snapshot = λ s w. ok w;
  delete_snapshot = λ path w. ok w;
  apply_batch = some (λ puts deletes w. ok (w.0, w.1 + 1));
  is_not_exist = λ e. false;
  is_symlink_error = λ e. false;
}

abbrev pub ports : Ports World Str
ports = ports_with (stat_found true)

abbrev pub backend : Backend ℕ Str
backend = record {
  add_watch = λ path n. ok (n + 1);
  remove_watch = λ path n. ok n;
  is_already_gone = λ e. false;
}

abbrev pub idle : Tracker World ℕ
idle = record {
  life = record new_life { started = true; backend_healthy = true };
  session_id = bytes "s";
  generation = 4;
  pending = none;
  watch_tree = none;
  stats = record {
    reconciliations = 0;
    files_scanned = 0;
    missing_detected = 0;
    orphans_detected = 0;
    integrity_scanned = 0;
    corrupt_detected = 0;
    public_events_dropped = 0;
    report_events_truncated = 0;
  };
  events = [];
  world = (0, 0);
}

abbrev scopes : List Str
scopes = bytes "/r" ∷ []

whole_root : collapse_scopes (bytes "/r") scopes ≡ scopes
unfolding collapse_scopes clean clean_parts resolve split render join_parts str_eq path_has_prefix
    starts_with ends_slash covered
whole_root = refl

abbrev gathered : Run World ℕ
gathered = final (gather config ports backend scopes (first_run config ports backend idle))

gathers : gather config ports backend scopes (first_run config ports backend idle) ≡ ok gathered
unfolding gather load_previous put_states scan_scopes scan_scope scan_entries sync_watches
    load_expected diff_states scan_entry watch_entry check_links record_change state_from_entry
    file_type is_dir is_symlink is_regular load_expected_scopes to_internal_states walk_diff_scoped
    walk_existing walk_moves walk_rest walk_created walk_deleted index_unique_ids index_ids
    remove_all sorted_keys sort keys get put remove str_eq str_leb
gathers = refl

one_entry : length gathered.actual ≡ 1
unfolding gather load_previous put_states scan_scopes scan_scope scan_entries sync_watches
    load_expected diff_states scan_entry watch_entry check_links record_change state_from_entry
    file_type is_dir is_symlink is_regular load_expected_scopes to_internal_states walk_diff_scoped
    walk_existing walk_moves walk_rest walk_created walk_deleted index_unique_ids index_ids
    remove_all sorted_keys sort keys get put remove str_eq str_leb
one_entry = refl

gather-healthy_example :
    healthy_of gathered
      + gathered.report.created
      + gathered.report.modified
      + gathered.report.replaced
    ≡ length gathered.actual
gather-healthy_example =
    gather-healthy config ports backend scopes idle gathered refl gathers (omega (arith, one_entry))

reconcile_scopes-commits_example :
    IsCommitted
      (pending_of gathered)
      4
      (commit_world config ports take_batch (pending_of gathered) (0, 0))
      (reconcile_scopes config ports backend scopes idle)
reconcile_scopes-commits_example =
    reconcile_scopes-commits config ports backend take_batch scopes [] (bytes "/r") idle gathered
      refl refl refl whole_root gathers

abbrev waiting : Pending
waiting = record {
  kind = pending_reconcile;
  session_id = bytes "s";
  generation = 5;
  report = zero_report;
  events = [];
  puts = zero_file_state ∷ [];
  deletes = [];
  integrity = none;
}

abbrev interrupted : Tracker World ℕ
interrupted = record idle { pending = some waiting }

reconcile_scopes-resume_example :
    IsCommitted waiting 4
      (commit_world config ports take_batch waiting (0, 0))
      (reconcile_scopes config ports backend scopes interrupted)
reconcile_scopes-resume_example =
    reconcile_scopes-resume config ports backend take_batch scopes interrupted waiting refl refl
      refl refl

commits : commit_world config ports take_batch waiting (0, 0) ≡ ok (0, 1)
unfolding commit_world offer cut apply_snapshot
commits = refl

reconcile_scopes-resume_synced_example :
    let u = (reconcile_scopes config ports backend scopes interrupted).tracker in
    (u.life.state ≡ state_synced) × (u.world ≡ (0, 1)) × (u.watch_tree ≡ none)
reconcile_scopes-resume_synced_example =
    reconcile_scopes-resume_synced config ports backend take_batch scopes interrupted waiting (0, 1)
      refl refl refl refl refl refl commits

abbrev broken : Ports World Str
broken = ports_with (stat_failed (bytes "io"))

abbrev stopped_run : Run World ℕ
stopped_run = final (gather config broken backend scopes (first_run config broken backend idle))

stops :
    gather config broken backend scopes (first_run config broken backend idle)
    ≡ err (stat_scope_failed (bytes "/r") (bytes "io")) stopped_run
unfolding gather load_previous put_states scan_scopes scan_scope
stops = refl

reconcile_scopes-failed_example :
    let reply = reconcile_scopes config broken backend scopes idle in
    (reply.error ≡ some (stat_scope_failed (bytes "/r") (bytes "io")))
    × (reply.tracker.world ≡ (0, 0))
    × (reply.tracker.pending ≡ none)
    × (reply.tracker.generation ≡ 4)
    × (reply.tracker.life.state ≡ state_dirty)
reconcile_scopes-failed_example =
    reconcile_scopes-failed config broken backend scopes [] (bytes "/r") idle
      (stat_scope_failed (bytes "/r") (bytes "io")) stopped_run refl refl whole_root stops
