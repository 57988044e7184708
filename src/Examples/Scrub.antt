-- ===== src/Examples/Scrub.antt =====
-- integrity.go: a scrub of two files of which one is corrupt. The world is the staging file and
-- the number of batches taken.
use fsrecon.Prelude.{
  ℕ, ◌+◌, ◌%◌, ◌^◌, ◌≡◌, refl, Str, bytes, Bool, true, false, none, some, List, [], ◌∷◌, ◌++◌,
  length, ◌==◌, ok, final,
}
use fsrecon.State.{FileState}
use fsrecon.Event.{Event}
use fsrecon.Delivery.{Sink}
use fsrecon.Scanner.{Entry, is_dir, is_symlink, is_regular, file_type, state_from_entry}
use fsrecon.Config.{Config, allow_hardlinks, expected_regular_files}
use fsrecon.Reconcile.{Tracker}
use fsrecon.Tracker.{new_life}
use fsrecon.Scrub.{
  Checked, checked, Stage, Scan, new_scan, scrub_entries, scrub_entry, judge, report_corrupt,
  fingerprint_fits,
}
use fsrecon.Scrub.Counts.{scrub_entries-counts}

abbrev World : Type 0
World = List Event × ℕ

abbrev take_batch : Sink Str World
take_batch b (staged, n) = ok (staged, n + 1)

abbrev config : Config World Str
config = record {
  root = bytes "/r";
  recursive = false;
  expected = none;
  expected_scope = expected_regular_files;
  change_sink = some take_batch;
  filter = none;
  hardlink_policy = allow_hardlinks;
  event_buffer = 4;
  report_event_limit = 4;
  change_batch_size = 2;
}

abbrev stage : Stage World Str
stage = record {
  create = λ w. ok w;
  encode = λ event w. ok (w.0 ++ event ∷ [], w.1);
  close_stage = λ w. ok w;
  open_input = λ w. ok w;
  decode_all = λ w. record { items = w.0; fault = none };
  close_input = λ w. ok w;
}

-- Files of one byte are valid.
abbrev one_byte : ℕ → Bool
one_byte n = n == 1

abbrev check : FileState → World → Checked Str
check s w = checked (one_byte s.size) []

abbrev file : Str → ℕ → Entry
file path size = record {
  path = path;
  identity = [];
  size = size;
  mod_time = 5;
  mode = 420;
  links = 1;
}

abbrev files : List Entry
files = file (bytes "/r/a") 1 ∷ file (bytes "/r/b") 2 ∷ []

abbrev scanned : Scan World
scanned = final (scrub_entries config stage check none files none (new_scan 5 ([], 0)))

scans : scrub_entries config stage check none files none (new_scan 5 ([], 0)) ≡ ok scanned
unfolding scrub_entries scrub_entry judge report_corrupt fingerprint_fits state_from_entry file_type
    is_regular is_dir is_symlink
scans = refl

one_of_each : (scanned.report.healthy ≡ 1) × (scanned.report.corrupt ≡ 1)
unfolding scrub_entries scrub_entry judge report_corrupt fingerprint_fits state_from_entry file_type
    is_regular is_dir is_symlink
one_of_each = (refl, refl)

scrub_entries-counts_example :
    (scanned.report.scanned ≡ (scanned.report.healthy + scanned.report.corrupt) % 2 ^ 64)
    × (scanned.report.corrupt ≡ length scanned.all_events % 2 ^ 64)
scrub_entries-counts_example =
    scrub_entries-counts config stage check none files none 5 ([], 0) scanned scans

abbrev idle : Tracker World ℕ
idle = record {
  life = record new_life { started = true; backend_healthy = true };
  session_id = bytes "s";
  generation = 4;
  pending = none;
  watch_tree = none;
  stats = record {
    reconciliations = 0;
    files_scanned = 0;
    missing_detected = 0;
    orphans_detected = 0;
    integrity_scanned = 0;
    corrupt_detected = 0;
    public_events_dropped = 0;
    report_events_truncated = 0;
  };
  events = [];
  world = ([], 0);
}

staged : stage.decode_all scanned.world ≡ record { items = scanned.all_events; fault = none }
unfolding scrub_entries scrub_entry judge report_corrupt fingerprint_fits state_from_entry file_type
    is_regular is_dir is_symlink
staged = refl
