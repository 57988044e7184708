-- ===== src/Convert.antt =====
-- reconcile.go, between the public states and events and those of internal/reconcile, and the
-- counters of a report. `EventKind` and `FileType` have no values but the named ones, so that the
-- default cases of the conversions are not reached. Reports do not keep times.
pub mod Totals
use fsrecon.Prelude.{
  ℕ, ◌+◌, Str, Map, Option, none, some, List, [], ◌∷◌, ◌++◌, length, ltb, if◌then◌else◌,
}
use fsrecon.State.{
  FileState, FileType, file_type_unknown, file_type_regular, file_type_directory, file_type_symlink,
  file_type_other, new_file_id,
}
use fsrecon.Event.{
  EventKind, event_created, event_modified, event_deleted, event_moved, event_attribute_changed,
  event_missing, event_orphan, event_replaced, event_invalid, event_corrupt, event_overflow,
  event_rescan_required, source_reconcile, Event, ReconcileReport,
}
use fsrecon.Delivery.{incr64}
use fsrecon.Diff

abbrev pub internal_type_from_public : FileType → Diff.FileType
internal_type_from_public file_type_unknown = Diff.type_unknown
internal_type_from_public file_type_regular = Diff.type_regular
internal_type_from_public file_type_directory = Diff.type_directory
internal_type_from_public file_type_symlink = Diff.type_symlink
internal_type_from_public file_type_other = Diff.type_other

abbrev pub file_type_from_internal : Diff.FileType → FileType
file_type_from_internal Diff.type_unknown = file_type_unknown
file_type_from_internal Diff.type_regular = file_type_regular
file_type_from_internal Diff.type_directory = file_type_directory
file_type_from_internal Diff.type_symlink = file_type_symlink
file_type_from_internal Diff.type_other = file_type_other

-- The body of the loop of `toInternalStates`.
abbrev pub to_internal_state : Str → FileState → Diff.State
to_internal_state path s = record {
  path = path;
  id = s.id.value;
  file_type = internal_type_from_public s.file_type;
  size = s.size;
  mod_unix = s.mod_time;
  mode = s.mode;
}

unfoldable pub to_internal_states : Map FileState → Map Diff.State
to_internal_states [] = []
to_internal_states ((path, s) ∷ states) =
    (path, to_internal_state path s) ∷ to_internal_states states

abbrev pub from_internal_state : Diff.State → FileState
from_internal_state s = record {
  path = s.path;
  id = new_file_id s.id;
  file_type = file_type_from_internal s.file_type;
  size = s.size;
  mod_time = s.mod_unix;
  mode = s.mode;
}

abbrev pub event_kind_from_internal : Diff.Kind → EventKind
event_kind_from_internal Diff.created = event_created
event_kind_from_internal Diff.modified = event_modified
event_kind_from_internal Diff.deleted = event_deleted
event_kind_from_internal Diff.moved = event_moved
event_kind_from_internal Diff.attribute_changed = event_attribute_changed
event_kind_from_internal Diff.missing = event_missing
event_kind_from_internal Diff.orphan = event_orphan
event_kind_from_internal Diff.replaced = event_replaced
event_kind_from_internal Diff.invalid = event_invalid

abbrev pub public_state : Option Diff.State → Option FileState
public_state none = none
public_state (some s) = some (from_internal_state s)

unfoldable pub event_from_change : Diff.Change → Event
event_from_change c = record {
  kind = event_kind_from_internal c.kind;
  path = c.path;
  old_path = c.old_path;
  before = public_state c.before;
  after = public_state c.after;
  source = source_reconcile;
}

unfoldable pub count_event : EventKind → ReconcileReport → ReconcileReport
count_event event_created r = record r { created = incr64 r.created }
count_event event_modified r = record r { modified = incr64 r.modified }
count_event event_attribute_changed r = record r { modified = incr64 r.modified }
count_event event_deleted r = record r { deleted = incr64 r.deleted }
count_event event_moved r = record r { moved = incr64 r.moved }
count_event event_replaced r = record r { replaced = incr64 r.replaced }
count_event event_missing r = record r { missing = incr64 r.missing }
count_event event_orphan r = record r { orphan = incr64 r.orphan }
count_event event_invalid r = record r { invalid = incr64 r.invalid }
count_event event_corrupt r = record r { corrupt = incr64 r.corrupt }
count_event event_overflow r = r
count_event event_rescan_required r = r

-- `addReportEvent`, with the limit of the configuration.
unfoldable pub add_report_event : ℕ → Event → ReconcileReport → ReconcileReport
add_report_event limit event r =
    if ltb (length r.events) limit
    then record r { events = r.events ++ event ∷ [] }
    else record r { events_truncated = incr64 r.events_truncated }

-- Both, as the callback of the walk and the loop over the policy events do.
abbrev pub note_event : ℕ → Event → ReconcileReport → ReconcileReport
note_event limit event r = add_report_event limit event (count_event event.kind r)

unfoldable pub note_events : ℕ → List Event → ReconcileReport → ReconcileReport
note_events limit [] r = r
note_events limit (event ∷ events) r = note_events limit events (note_event limit event r)
