-- ===== src/Bolt/Events.antt =====
-- The events that a reconciliation of reconcile_bolt.go stages in its index, as documents. Times
-- are left out, as those of an `Event` are.
use fsrecon.Prelude.{
  ℕ, ◌^◌, ◌≡◌, refl, ap, ◌∙◌, ◌<◌, Str, Option, none, some, List, [], ◌∷◌, get_elem?, bytes, str_eq,
  arith,
}
use fsrecon.State.{FileState}
use fsrecon.Event.{
  Event, EventKind, EventSource, event_created, event_modified, event_deleted, event_moved,
  event_attribute_changed, event_missing, event_orphan, event_replaced, event_invalid,
  event_corrupt, event_overflow, event_rescan_required, source_watcher, source_reconcile,
  source_integrity,
}
use fsrecon.Bolt.Utf8.{to_valid, valid_from}
use fsrecon.Bolt.Json.{
  Json, number, object, end, field, string_value, omit_empty, omit_none, lookup, ◌>>◌, as_string,
  as_number, as_pointer,
}
use fsrecon.Bolt.Codec.{
  StoredFileState, stored_state, file_state_from_stored, marshal_state, unmarshal_state,
  encode_file_state, as_written, stored_as_written, Fits, unmarshal-encode, from_stored-written,
}

-- The `uint8` behind an `EventKind`.
abbrev pub event_kind_code : EventKind → ℕ
event_kind_code event_created = 0
event_kind_code event_modified = 1
event_kind_code event_deleted = 2
event_kind_code event_moved = 3
event_kind_code event_attribute_changed = 4
event_kind_code event_missing = 5
event_kind_code event_orphan = 6
event_kind_code event_replaced = 7
event_kind_code event_invalid = 8
event_kind_code event_corrupt = 9
event_kind_code event_overflow = 10
event_kind_code event_rescan_required = 11

abbrev pub event_source_code : EventSource → ℕ
event_source_code source_watcher = 0
event_source_code source_reconcile = 1
event_source_code source_integrity = 2

-- The constants in the order of their codes.
abbrev event_kinds : List EventKind
event_kinds =
    event_created ∷ event_modified ∷ event_deleted ∷ event_moved ∷ event_attribute_changed
    ∷ event_missing ∷ event_orphan ∷ event_replaced ∷ event_invalid ∷ event_corrupt ∷ event_overflow
    ∷ event_rescan_required ∷ []

abbrev event_sources : List EventSource
event_sources = source_watcher ∷ source_reconcile ∷ source_integrity ∷ []

-- `stagedEvent`
pub record StagedEvent : Type 0 where
  pub kind : ℕ
  pub path : Str
  pub old_path : Str
  pub before : Option StoredFileState
  pub after : Option StoredFileState
  pub source : ℕ

-- `storedState`, on a pointer.
abbrev pub stored_pointer : Option FileState → Option StoredFileState
stored_pointer none = none
stored_pointer (some s) = some (stored_state s)

-- `fileStateFromStored`
abbrev pub from_stored_pointer : Option StoredFileState → Option (Option FileState)
from_stored_pointer none = some none
from_stored_pointer (some s) = file_state_from_stored s >> λ state. some (some state)

abbrev state_document : Option StoredFileState → Option Json
state_document none = none
state_document (some s) = some (marshal_state s)

-- `json.Marshal` of a `stagedEvent`, its states being documents.
unfoldable pub event_document : ℕ → Str → Str → Option Json → Option Json → ℕ → Json
event_document kind path old_path before after source = object (
    field (bytes "kind") (number kind) (
      field (bytes "path") (string_value path) (
        omit_empty (bytes "old_path") old_path (
          omit_none (bytes "before") before
            (omit_none (bytes "after") after (field (bytes "source") (number source) end))))))

-- `encodeStagedEvent`
unfoldable pub encode_staged_event : Event → Json
unfolding event_document marshal_state
encode_staged_event e =
    event_document (event_kind_code e.kind) e.path e.old_path
      (state_document (stored_pointer e.before)) (state_document (stored_pointer e.after))
      (event_source_code e.source)

-- `json.Unmarshal` into a `stagedEvent`
unfoldable pub unmarshal_event : Json → Option StagedEvent
unfolding lookup unmarshal_state
unmarshal_event (object fs) = as_number (2 ^ 8) (lookup (bytes "kind") fs) >> λ kind.
    as_string (lookup (bytes "path") fs) >> λ path.
    as_string (lookup (bytes "old_path") fs) >> λ old_path.
    as_pointer unmarshal_state (lookup (bytes "before") fs) >> λ before.
    as_pointer unmarshal_state (lookup (bytes "after") fs) >> λ after.
    as_number (2 ^ 8) (lookup (bytes "source") fs) >> λ source. some (record {
      kind = kind;
      path = path;
      old_path = old_path;
      before = before;
      after = after;
      source = source;
    })
unmarshal_event v = none

-- `eventFromStaged`
unfoldable pub event_from_staged : StagedEvent → Option Event
unfolding file_state_from_stored
event_from_staged s = get_elem? event_kinds s.kind >> λ kind.
    from_stored_pointer s.before >> λ before. from_stored_pointer s.after >> λ after.
    get_elem? event_sources s.source >> λ source. some (record {
      kind = kind;
      path = s.path;
      old_path = s.old_path;
      before = before;
      after = after;
      source = source;
    })

-- `decodeStagedEvent`; `none` is its error.
unfoldable pub decode_staged_event : Json → Option Event
unfolding unmarshal_event event_from_staged
decode_staged_event v = unmarshal_event v >> event_from_staged

abbrev pointer_as_written : Option FileState → Option FileState
pointer_as_written none = none
pointer_as_written (some s) = some (as_written s)

-- What a staged document keeps of an event: its strings as valid UTF-8.
abbrev pub event_as_written : Event → Event
event_as_written e = record e {
  path = to_valid e.path;
  old_path = to_valid e.old_path;
  before = pointer_as_written e.before;
  after = pointer_as_written e.after;
}

abbrev stored_pointer_as_written : Option FileState → Option StoredFileState
stored_pointer_as_written none = none
stored_pointer_as_written (some s) = some (stored_as_written (stored_state s))

abbrev pub PointerFits : Option FileState → Type 0
PointerFits none = Unit {0}
PointerFits (some s) = Fits s

get_elem-event_kinds : (k : EventKind) → get_elem? event_kinds (event_kind_code k) ≡ some k
get_elem-event_kinds event_created = refl
get_elem-event_kinds event_modified = refl
get_elem-event_kinds event_deleted = refl
get_elem-event_kinds event_moved = refl
get_elem-event_kinds event_attribute_changed = refl
get_elem-event_kinds event_missing = refl
get_elem-event_kinds event_orphan = refl
get_elem-event_kinds event_replaced = refl
get_elem-event_kinds event_invalid = refl
get_elem-event_kinds event_corrupt = refl
get_elem-event_kinds event_overflow = refl
get_elem-event_kinds event_rescan_required = refl

get_elem-event_sources : (s : EventSource) → get_elem? event_sources (event_source_code s) ≡ some s
get_elem-event_sources source_watcher = refl
get_elem-event_sources source_reconcile = refl
get_elem-event_sources source_integrity = refl

abbrev staged : ℕ → Str → Str → Option StoredFileState → Option StoredFileState → ℕ → StagedEvent
staged kind path old_path before after source = record {
  kind = kind;
  path = path;
  old_path = old_path;
  before = before;
  after = after;
  source = source;
}

-- The fields of a document are found whichever of the optional ones it has.
unmarshal-document :
    (kind source : ℕ) (path old_path : Str) (b a : Option Json) (b' a' : Option StoredFileState)
    → kind < 2 ^ 8
    → source < 2 ^ 8
    → as_pointer unmarshal_state b ≡ some b'
    → as_pointer unmarshal_state a ≡ some a'
    → unmarshal_event (event_document kind path old_path b a source)
      ≡ some (staged kind (to_valid path) (to_valid old_path) b' a' source)
unfolding unmarshal_event event_document lookup str_eq to_valid valid_from
unmarshal-document k s p [] none none b' a' h1 h2 hb ha = ground arith
unmarshal-document k s p [] none (some x) b' a' h1 h2 hb ha = ground arith
unmarshal-document k s p [] (some y) none b' a' h1 h2 hb ha = ground arith
unmarshal-document k s p [] (some y) (some x) b' a' h1 h2 hb ha = ground arith
unmarshal-document k s p (c ∷ o) none none b' a' h1 h2 hb ha = ground arith
unmarshal-document k s p (c ∷ o) none (some x) b' a' h1 h2 hb ha = ground arith
unmarshal-document k s p (c ∷ o) (some y) none b' a' h1 h2 hb ha = ground arith
unmarshal-document k s p (c ∷ o) (some y) (some x) b' a' h1 h2 hb ha = ground arith

abbrev staged_as_written : Event → StagedEvent
staged_as_written e =
    staged (event_kind_code e.kind) (to_valid e.path) (to_valid e.old_path)
      (stored_pointer_as_written e.before) (stored_pointer_as_written e.after)
      (event_source_code e.source)

as_pointer-document :
    (s : Option FileState)
    → PointerFits s
    → as_pointer unmarshal_state (state_document (stored_pointer s))
      ≡ some (stored_pointer_as_written s)
unfolding encode_file_state marshal_state
as_pointer-document none h = refl
as_pointer-document (some s) h = rw (unmarshal-encode s h) refl

from_stored_pointer-written :
    (s : Option FileState)
    → from_stored_pointer (stored_pointer_as_written s) ≡ some (pointer_as_written s)
from_stored_pointer-written none = refl
from_stored_pointer-written (some s) = rw from_stored-written refl

event_kind_code-lt : (k : EventKind) → event_kind_code k < 2 ^ 8
event_kind_code-lt k = ground arith

event_source_code-lt : (s : EventSource) → event_source_code s < 2 ^ 8
event_source_code-lt s = ground arith

from_staged-written :
    (e : Event) → event_from_staged (staged_as_written e) ≡ some (event_as_written e)
unfolding event_from_staged
from_staged-written e =
    rw
      (
        get_elem-event_kinds,
        from_stored_pointer-written e.before,
        from_stored_pointer-written e.after,
        get_elem-event_sources,
      )
      refl

-- Decoding the document of an event, the states of which have sizes and modes that fit their Go
-- types, gives that event, its strings made valid UTF-8, whichever of its fields are empty.
pub decode-encode_event :
    (e : Event)
    → PointerFits e.before
    → PointerFits e.after
    → decode_staged_event (encode_staged_event e) ≡ some (event_as_written e)
unfolding decode_staged_event encode_staged_event
decode-encode_event e hb ha =
    ap (λ o. o >> event_from_staged)
      (unmarshal-document (event_kind_code e.kind) (event_source_code e.source) e.path e.old_path
        (state_document (stored_pointer e.before)) (state_document (stored_pointer e.after))
        (stored_pointer_as_written e.before) (stored_pointer_as_written e.after)
        (event_kind_code-lt e.kind) (event_source_code-lt e.source)
        (as_pointer-document e.before hb) (as_pointer-document e.after ha))
    ∙ from_staged-written e
