-- ===== src/Bolt/Expect.antt =====
-- reconcile_bolt.go: expected entries in the index, and the events that compare them with the
-- actual state.
use fsrecon.Prelude.{
  ℕ, Bool, true, false, not, ◌||◌, Str, Map, Option, none, some, [], ◌∷◌, ◌==◌, bytes, Result, ok,
  err, ◌>>=◌, if◌then◌else◌,
}
use fsrecon.State.{FileState, FileType, file_type_regular, file_type_code, file_type_eq}
use fsrecon.Event.{Event, event_missing, event_invalid, event_orphan}
use fsrecon.Delivery.{incr64}
use fsrecon.Config.{ExpectedEntry, ExpectedEntryScope, expected_regular_files, expected_all_entries}
use fsrecon.Bolt.{BoltError, malformed, Engine}
use fsrecon.Bolt.Json.{
  Json, null, blob, number, object, end, field, string_value, lookup, ◌>>◌, as_string, as_size,
  as_blob, as_pointer,
}
use fsrecon.Bolt.Codec.{decode_file_state, file_type_of_code}
use fsrecon.Bolt.Work.{
  Work, on_state, semantic_event, stage_report_event, diff_actuals, diff_previous,
}

abbrev type_document : Option FileType → Json
type_document none = null
type_document (some t) = number (file_type_code t)

abbrev size_document : Option ℕ → Json
size_document none = null
size_document (some n) = number n

-- `json.Marshal` of an `ExpectedEntry`. A nil fingerprint is an empty one.
unfoldable pub encode_expected : ExpectedEntry → Json
encode_expected e = object (
    field (bytes "Path") (string_value e.path) (
      field (bytes "Type") (type_document e.file_type) (
        field (bytes "Size") (size_document e.size)
          (field (bytes "Fingerprint") (blob e.fingerprint) end))))

abbrev as_type : Json → Option FileType
as_type (number n) = file_type_of_code n
as_type v = none

-- `json.Unmarshal` into one.
unfoldable pub decode_expected : Json → Option ExpectedEntry
unfolding lookup
decode_expected (object fs) = as_string (lookup (bytes "Path") fs) >> λ path.
    as_pointer as_type (lookup (bytes "Type") fs) >> λ file_type.
    as_pointer as_size (lookup (bytes "Size") fs) >> λ size.
    as_blob (lookup (bytes "Fingerprint") fs) >> λ fingerprint.
    some (record { path = path; file_type = file_type; size = size; fingerprint = fingerprint })
decode_expected v = none

-- Does the entry differ in its type or its size?
unfoldable pub differs : ExpectedEntry → FileState → Bool
differs entry state =
    (elim entry.file_type [ none ↦ false | some t ↦ not (file_type_eq state.file_type t) ])
    || (elim entry.size [ none ↦ false | some n ↦ not (state.size == n) ])

abbrev pub missing_event : Str → Event
missing_event path = semantic_event event_missing path [] none none

abbrev pub invalid_event : FileState → Event
invalid_event state = semantic_event event_invalid state.path [] none (some state)

abbrev pub orphan_event : FileState → Event
orphan_event state = semantic_event event_orphan state.path [] none (some state)

abbrev pub count_met : {B C : Type 0} → Work B C → Work B C
count_met w = record w { report = record w.report { healthy = incr64 w.report.healthy } }

module _ {B C F : Type 0} (states : Engine B Json F) (limit : ℕ) where
  unfoldable pub compare_entry :
      ExpectedEntry → Work B C → FileState → Result (BoltError F) (Work B C)
  unfolding stage_report_event differs
  compare_entry entry w state =
      if differs entry state
      then stage_report_event states limit (invalid_event state) w
      else ok (count_met w)

  -- The body of the loop over the expected entries.
  unfoldable pub diff_entry :
      Str → Work B C → Option ExpectedEntry → Result (BoltError F) (Work B C)
  unfolding compare_entry stage_report_event decode_file_state
  diff_entry path w none = err malformed w
  diff_entry path w (some entry) = elim (states.get w.index.actual path) [
    | none ↦ stage_report_event states limit (missing_event entry.path) w
    | some value ↦ on_state w (compare_entry entry w) (decode_file_state value)
  ]

  unfoldable pub diff_entries : Map Json → Work B C → Result (BoltError F) (Work B C)
  unfolding diff_entry decode_expected
  diff_entries [] w = ok w
  diff_entries ((path, value) ∷ rest) w =
      diff_entry path w (decode_expected value) >>= diff_entries rest

  unfoldable pub stage_orphan :
      ExpectedEntryScope → Work B C → FileState → Result (BoltError F) (Work B C)
  unfolding stage_report_event
  stage_orphan expected_all_entries w state = stage_report_event states limit (orphan_event state) w
  stage_orphan expected_regular_files w state =
      if file_type_eq state.file_type file_type_regular
      then stage_report_event states limit (orphan_event state) w
      else ok w

  unfoldable pub diff_orphans :
      ExpectedEntryScope → Map Json → Work B C → Result (BoltError F) (Work B C)
  unfolding stage_orphan decode_file_state
  diff_orphans scope [] w = ok w
  diff_orphans scope ((path, value) ∷ rest) w = elim (states.get w.index.expected path) [
    | some entry ↦ diff_orphans scope rest w
    | none ↦ on_state w (stage_orphan scope w) (decode_file_state value) >>= diff_orphans scope rest
  ]

module _ {B C F : Type 0} (states : Engine B Json F) (paths : Engine C Str F) (limit : ℕ) where
  unfoldable pub diff_expected :
      Bool → ExpectedEntryScope → Work B C → Result (BoltError F) (Work B C)
  unfolding diff_entries diff_orphans
  diff_expected false scope w = ok w
  diff_expected true scope w = diff_entries states limit (states.pairs w.index.expected) w >>= λ w'.
      diff_orphans states limit scope (states.pairs w'.index.actual) w'

  -- The whole diff.
  unfoldable pub diff_index : Bool → ExpectedEntryScope → Work B C → Result (BoltError F) (Work B C)
  unfolding diff_actuals diff_previous diff_expected
  diff_index enabled scope w =
      diff_actuals states paths limit (states.pairs w.index.actual) w >>= λ w'.
      diff_previous states paths limit (states.pairs w'.index.previous) w'
      >>= diff_expected enabled scope
