-- ===== src/Scrub.antt =====
-- `Scrub` of integrity.go: the contents of regular files are checked, and those that fail are
-- delivered as a generation of their own. `reconcileMu` and `integrityMu` make it one step. The
-- events are staged in a temporary file and read back from it for the delivery; that the file is
-- removed in the end is left out.
pub mod Generation
pub mod Counts
pub mod Delivered
use fsrecon.Prelude.{
  ℕ, Bool, true, false, not, ◌&&◌, Str, Map, Option, none, some, List, [], ◌∷◌, ◌++◌, str_eq, get,
  length, ltb, ◌==◌, if◌then◌else◌, Result, ok, err, ◌>>=◌, final,
}
use fsrecon.State.{FileState, FileType, file_type_regular, file_type_eq}
use fsrecon.Event.{Event, event_corrupt, source_integrity}
use fsrecon.Delivery.{DeliveryError, incr64}
use fsrecon.Scanner.{Entry, Stream, state_from_entry}
use fsrecon.Config.{Config, Ports}
use fsrecon.Expected.{ExpectedError, load_expected_scopes}
use fsrecon.Diff
use fsrecon.Reconcile.{
  PendingKind, pending_reconcile, pending_integrity, IntegrityReport, Pending, Stats, Tracker,
  Failure, Reply, send_events,
}

-- The answer of an `IntegrityChecker`: is the file valid, and its fingerprint.
pub data Checked (E : Type 0) : Type 0 where
  checked : Bool → Str → Checked E
  check_error : E → Checked E

-- The temporary file: created, written to event by event, closed, opened again, read, and closed.
pub record Stage (W E : Type 0) : Type 0 where
  pub create : W → Result E W
  pub encode : Event → W → Result E W
  pub close_stage : W → Result E W
  pub open_input : W → Result E W
  pub decode_all : W → Stream E Event
  pub close_input : W → Result E W

pub data ScrubError (E : Type 0) : Type 0 where
  no_integrity tracker_closed : ScrubError E
  resume_failed : Failure E → ScrubError E
  stage_failed scan_failed : E → ScrubError E
  expected_failed : ExpectedError E → ScrubError E
  check_failed : Str → E → ScrubError E
  delivery_failed : DeliveryError E → ScrubError E

abbrev pub zero_integrity : IntegrityReport
zero_integrity = record {
  generation = 0;
  scanned = 0;
  healthy = 0;
  corrupt = 0;
  events = [];
  events_truncated = 0;
}

-- The local variables of `Scrub`; the world stands for the tracker's, until it is put back.
pub record Scan (W : Type 0) : Type 0 where
  pub report : IntegrityReport
  pub all_events : List Event
  pub world : W

abbrev pub new_scan : {W : Type 0} → ℕ → W → Scan W
new_scan generation w = record {
  report = record zero_integrity { generation = generation };
  all_events = [];
  world = w;
}

abbrev pub corrupt_event : FileState → Event
corrupt_event s = record {
  kind = event_corrupt;
  path = s.path;
  old_path = [];
  before = none;
  after = some s;
  source = source_integrity;
}

-- Does the fingerprint fit the expected one, where there is one?
unfoldable pub fingerprint_fits : Option (Map Diff.Expected) → Str → Str → Bool
fingerprint_fits none path fingerprint = true
fingerprint_fits (some expected) path fingerprint = elim (get expected path) [
  | none ↦ true
  | some e ↦ if ltb 0 (length e.fingerprint) then str_eq fingerprint e.fingerprint else true
]

unfoldable pub report_corrupt : ℕ → Event → IntegrityReport → IntegrityReport
report_corrupt limit event r =
    if ltb (length r.events) limit
    then record r { corrupt = incr64 r.corrupt; events = r.events ++ event ∷ [] }
    else record r { corrupt = incr64 r.corrupt; events_truncated = incr64 r.events_truncated }

abbrev pub count_scanned : IntegrityReport → IntegrityReport
count_scanned r = record r { scanned = incr64 r.scanned }

module _ {W E : Type 0} (config : Config W E) (stage : Stage W E)
    (check : FileState → W → Checked E) where
  -- Without a sink nothing is staged.
  abbrev pub staging : (W → Result E W) → W → Result E W
  staging f w = elim config.change_sink [ none ↦ ok w | some sink ↦ f w ]

  abbrev pub stage_event : Event → Scan W → Result (ScrubError E) (Scan W)
  stage_event event s = elim (staging (λ w. stage.encode event w) s.world) [
    | err e w ↦ err (stage_failed e) (record s { world = w })
    | ok w ↦ ok (record s { world = w; all_events = s.all_events ++ event ∷ [] })
  ]

  unfoldable pub judge : FileState → Bool → Scan W → Result (ScrubError E) (Scan W)
  unfolding report_corrupt
  judge state true s =
      ok (record s {
        report = record (count_scanned s.report) { healthy = incr64 s.report.healthy };
      })
  judge state false s = stage_event (corrupt_event state) (record s {
    report =
        report_corrupt config.report_event_limit (corrupt_event state) (count_scanned s.report);
  })

  -- A checker's answer for a file.
  abbrev pub judge_answer :
      Option (Map Diff.Expected) → FileState → Checked E → Scan W → Result (ScrubError E) (Scan W)
  judge_answer expected state (check_error e) s = err (check_failed state.path e) s
  judge_answer expected state (checked valid fingerprint) s =
      judge state (valid && fingerprint_fits expected state.path fingerprint) s

  -- The callback of the scan.
  unfoldable pub scrub_entry :
      Option (Map Diff.Expected) → Entry → Scan W → Result (ScrubError E) (Scan W)
  unfolding judge fingerprint_fits
  scrub_entry expected entry s =
      let state = state_from_entry entry in
      if not (file_type_eq state.file_type file_type_regular)
      then ok s
      else judge_answer expected state (check state s.world) s

  unfoldable pub scrub_entries :
      Option (Map Diff.Expected) → List Entry → Option E → Scan W → Result (ScrubError E) (Scan W)
  unfolding scrub_entry
  scrub_entries expected [] none s = ok s
  scrub_entries expected [] (some e) s = err (scan_failed e) s
  scrub_entries expected (entry ∷ entries) fault s =
      scrub_entry expected entry s >>= scrub_entries expected entries fault

  -- A step of the stage in a scan.
  abbrev pub on_stage : (W → Result E W) → Scan W → Result (ScrubError E) (Scan W)
  on_stage f s = elim (staging f s.world) [
    | err e w ↦ err (stage_failed e) (record s { world = w })
    | ok w ↦ ok (record s { world = w })
  ]

module _ {W E : Type 0} (config : Config W E) (ports : Ports W E) (stage : Stage W E) where
  -- The scan, between the creation of the stage and its reopening.
  unfoldable pub scan_all : (FileState → W → Checked E) → ℕ → W → Result (ScrubError E) (Scan W)
  unfolding scrub_entries
  scan_all check generation w =
      on_stage config stage check (λ v. stage.create v) (new_scan generation w)
      >>= (λ s. elim (load_expected_scopes config ports (config.root ∷ []) s.world) [
        | err e m ↦ err (expected_failed e) s
        | ok expected ↦
            let input = ports.scan config.root s.world in
            scrub_entries config stage check expected input.items input.fault s
      ])
      >>= on_stage config stage check (λ v. stage.close_stage v)
      >>= on_stage config stage check (λ v. stage.open_input v)
