-- ===== src/Names.antt =====
-- The methods `String` of state.go, event.go, tracker.go and observer_types.go. A code without a
-- constructor, which prints as "UNKNOWN", is not in the types.
use fsrecon.Prelude.{Str, bytes}
use fsrecon.State.{
  FileType, file_type_unknown, file_type_regular, file_type_directory, file_type_symlink,
  file_type_other,
}
use fsrecon.Event.{
  EventKind, event_created, event_modified, event_deleted, event_moved, event_attribute_changed,
  event_missing, event_orphan, event_replaced, event_invalid, event_corrupt, event_overflow,
  event_rescan_required, EventSource, source_watcher, source_reconcile, source_integrity,
}
use fsrecon.Tracker.{
  TrackerState, state_created, state_starting, state_syncing, state_synced, state_dirty,
  state_reconciling, state_stopped, state_degraded,
}
use fsrecon.Observer.{
  HintScope, hint_path, hint_subtree, HintCause, hint_native_change, hint_startup, hint_overflow,
  hint_backend_stopped, ObserverState, observer_created, observer_starting, observer_running,
  observer_degraded, observer_stopped,
}

abbrev pub file_type_name : FileType → Str
file_type_name file_type_unknown = bytes "UNKNOWN"
file_type_name file_type_regular = bytes "REGULAR"
file_type_name file_type_directory = bytes "DIRECTORY"
file_type_name file_type_symlink = bytes "SYMLINK"
file_type_name file_type_other = bytes "OTHER"

abbrev pub event_kind_name : EventKind → Str
event_kind_name event_created = bytes "CREATED"
event_kind_name event_modified = bytes "MODIFIED"
event_kind_name event_deleted = bytes "DELETED"
event_kind_name event_moved = bytes "MOVED"
event_kind_name event_attribute_changed = bytes "ATTRIBUTE_CHANGED"
event_kind_name event_missing = bytes "MISSING"
event_kind_name event_orphan = bytes "ORPHAN"
event_kind_name event_replaced = bytes "REPLACED"
event_kind_name event_invalid = bytes "INVALID"
event_kind_name event_corrupt = bytes "CORRUPT"
event_kind_name event_overflow = bytes "OVERFLOW"
event_kind_name event_rescan_required = bytes "RESCAN_REQUIRED"

abbrev pub event_source_name : EventSource → Str
event_source_name source_watcher = bytes "WATCHER"
event_source_name source_reconcile = bytes "RECONCILE"
event_source_name source_integrity = bytes "INTEGRITY"

abbrev pub tracker_state_name : TrackerState → Str
tracker_state_name state_created = bytes "CREATED"
tracker_state_name state_starting = bytes "STARTING"
tracker_state_name state_syncing = bytes "SYNCING"
tracker_state_name state_synced = bytes "SYNCED"
tracker_state_name state_dirty = bytes "DIRTY"
tracker_state_name state_reconciling = bytes "RECONCILING"
tracker_state_name state_stopped = bytes "STOPPED"
tracker_state_name state_degraded = bytes "DEGRADED"

abbrev pub hint_scope_name : HintScope → Str
hint_scope_name hint_path = bytes "PATH"
hint_scope_name hint_subtree = bytes "SUBTREE"

abbrev pub hint_cause_name : HintCause → Str
hint_cause_name hint_native_change = bytes "NATIVE_CHANGE"
hint_cause_name hint_startup = bytes "STARTUP"
hint_cause_name hint_overflow = bytes "OVERFLOW"
hint_cause_name hint_backend_stopped = bytes "BACKEND_STOPPED"

abbrev pub observer_state_name : ObserverState → Str
observer_state_name observer_created = bytes "CREATED"
observer_state_name observer_starting = bytes "STARTING"
observer_state_name observer_running = bytes "RUNNING"
observer_state_name observer_degraded = bytes "DEGRADED"
observer_state_name observer_stopped = bytes "STOPPED"
