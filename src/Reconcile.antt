-- ===== src/Reconcile.antt =====
-- reconcile.go and pending.go: a generation of reconciliation, from the snapshot and the scan to
-- the diff. `reconcileMu` makes a reconciliation one step. Contexts are left out; the
-- choice of the path by way of a Bolt index is in Bolt/Dispatch.
pub mod Gather
pub mod Commit
pub mod Retry
pub mod Order
pub mod Outcomes
pub mod Healthy
pub mod Ready
use fsrecon.Prelude.{
  ℕ, ◌+◌, Bool, true, false, Str, Map, Option, none, some, List, [], ◌∷◌, ◌++◌, ltb, length,
  if◌then◌else◌,
}
use fsrecon.State.{FileState}
use fsrecon.Event.{Event, ReconcileReport}
use fsrecon.Delivery.{DeliveryError, incr64}
use fsrecon.Watchtree.{Tree, WatchError}
use fsrecon.Tracker.{Life}
use fsrecon.Expected.{ExpectedError}

pub data PendingKind : Type 0 where
  pending_reconcile pending_integrity : PendingKind

-- `IntegrityReport` of report.go, without times.
pub record IntegrityReport : Type 0 where
  pub generation : ℕ
  pub scanned : ℕ
  pub healthy : ℕ
  pub corrupt : ℕ
  pub events : List Event
  pub events_truncated : ℕ

-- `pendingGeneration`
pub record Pending : Type 0 where
  pub kind : PendingKind
  pub session_id : Str
  pub generation : ℕ
  pub report : ReconcileReport
  pub events : List Event
  pub puts : List FileState
  pub deletes : List Str
  pub integrity : Option IntegrityReport

-- The counters of `trackerStats` that a generation adds to.
pub record Stats : Type 0 where
  pub reconciliations : ℕ
  pub files_scanned : ℕ
  pub missing_detected : ℕ
  pub orphans_detected : ℕ
  pub integrity_scanned : ℕ
  pub corrupt_detected : ℕ
  pub public_events_dropped : ℕ
  pub report_events_truncated : ℕ

-- The fields of a `Tracker` that reconciliation reads and writes, the channel of events among
-- them, and the outside world. The watch tree brings its watcher.
pub record Tracker (W B : Type 0) : Type 0 where
  pub life : Life
  pub session_id : Str
  pub generation : ℕ
  pub pending : Option Pending
  pub watch_tree : Option (Tree B)
  pub stats : Stats
  pub events : List Event
  pub world : W

-- What ends the callback of a scan.
pub data ScanFault (E : Type 0) : Type 0 where
  scan_error : E → ScanFault E
  add_watch_failed : WatchError E → ScanFault E
  hardlink_rejected : Str → ScanFault E

pub data Failure (E : Type 0) : Type 0 where
  err_closed : Failure E
  snapshot_failed : Str → E → Failure E
  stat_scope_failed : Str → E → Failure E
  scan_failed symlink_rejected : Str → ScanFault E → Failure E
  sync_watches_failed : WatchError E → Failure E
  expected_failed : ExpectedError E → Failure E
  delivery_failed : DeliveryError E → Failure E
  apply_failed : E → Failure E
  delete_failed put_failed : Str → E → Failure E
  no_pending_integrity : Failure E

-- What a reconciliation returns, beside the tracker it leaves.
pub record Reply (W B E : Type 0) : Type 0 where
  pub report : ReconcileReport
  pub error : Option (Failure E)
  pub tracker : Tracker W B

module _ {W B : Type 0} where
  -- `sendEvent`: a full channel drops the event and counts it.
  unfoldable pub send_event : ℕ → Event → Tracker W B → Tracker W B
  send_event buffer event t =
      if ltb (length t.events) buffer
      then record t { events = t.events ++ event ∷ [] }
      else record t {
        stats = record t.stats { public_events_dropped = incr64 t.stats.public_events_dropped };
      }

  unfoldable pub send_events : ℕ → List Event → Tracker W B → Tracker W B
  unfolding send_event
  send_events buffer [] t = t
  send_events buffer (event ∷ events) t = send_events buffer events (send_event buffer event t)

  abbrev pub on_life : (Life → Life) → Tracker W B → Tracker W B
  on_life f t = record t { life = f t.life }
