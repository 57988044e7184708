-- ===== src/Event.antt =====
-- event.go and report.go: semantic events, the batches in which they are delivered, and the
-- report of a reconciliation. The timestamps of `time.Now` are left out: nothing reads them.
use fsrecon.Prelude.{ℕ, Bool, Str, Option, List, []}
use fsrecon.State.{FileState}

pub data EventKind : Type 0 where
  event_created event_modified event_deleted event_moved event_attribute_changed : EventKind
  event_missing event_orphan event_replaced event_invalid event_corrupt : EventKind
  event_overflow event_rescan_required : EventKind

pub data EventSource : Type 0 where
  source_watcher source_reconcile source_integrity : EventSource

pub record Event : Type 0 where
  pub kind : EventKind
  pub path : Str
  pub old_path : Str
  pub before : Option FileState
  pub after : Option FileState
  pub source : EventSource

pub record ChangeBatch : Type 0 where
  pub session_id : Str
  pub generation : ℕ
  pub sequence : ℕ
  pub final : Bool
  pub events : List Event

-- `ReconcileReport`, without `StartedAt` and `Duration`. The counters are `uint64`.
pub record ReconcileReport : Type 0 where
  pub generation : ℕ
  pub scanned : ℕ
  pub healthy : ℕ
  pub created : ℕ
  pub modified : ℕ
  pub deleted : ℕ
  pub moved : ℕ
  pub replaced : ℕ
  pub missing : ℕ
  pub orphan : ℕ
  pub invalid : ℕ
  pub corrupt : ℕ
  pub events : List Event
  pub events_truncated : ℕ

abbrev pub zero_report : ReconcileReport
zero_report = record {
  generation = 0;
  scanned = 0;
  healthy = 0;
  created = 0;
  modified = 0;
  deleted = 0;
  moved = 0;
  replaced = 0;
  missing = 0;
  orphan = 0;
  invalid = 0;
  corrupt = 0;
  events = [];
  events_truncated = 0;
}
