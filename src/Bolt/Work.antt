-- ===== src/Bolt/Work.antt =====
-- reconcile_bolt.go: the index that a reconciliation builds, a temporary database of buckets, and
-- the steps that stage events in it. Its buckets of documents and of paths are two engines.
use fsrecon.Prelude.{
  ℕ, ◌+◌, ◌/◌, ◌%◌, ◌^◌, Bool, not, ◌&&◌, ◌||◌, Str, Map, Option, none, some, is_some, [], ◌∷◌,
  str_eq, ◌==◌, Result, ok, err, ◌>>=◌, if◌then◌else◌,
}
use fsrecon.State.{FileState, is_zero, equal, file_type_eq}
use fsrecon.Event.{
  Event, EventKind, event_created, event_modified, event_deleted, event_moved,
  event_attribute_changed, event_replaced, source_reconcile, ReconcileReport,
}
use fsrecon.Convert.{note_event}
use fsrecon.Bolt.{BoltError, engine_failed, Engine}
use fsrecon.Bolt.Json.{Json}
use fsrecon.Bolt.Codec.{decode_file_state}
use fsrecon.Bolt.Events.{encode_staged_event}

pub record Index (B C : Type 0) : Type 0 where
  pub previous : B
  pub actual : B
  pub expected : B
  pub changes : B
  pub sequence : ℕ
  pub previous_id : C
  pub actual_id : C
  pub matched : C

-- The report and the index.
pub record Work (B C : Type 0) : Type 0 where
  pub report : ReconcileReport
  pub index : Index B C

-- A call on a bucket, put back into the whole.
abbrev pub lift_step : {X S F : Type 0} → (X → S) → Result F X → Result (BoltError F) S
lift_step f (ok x) = ok (f x)
lift_step f (err e x) = err (engine_failed e) (f x)

-- `string(value)`, which is empty for a missing one.
abbrev pub text_of : Option Str → Str
text_of none = []
text_of (some s) = s

-- A decoded document, or its error.
abbrev pub on_state :
    {S F : Type 0}
    → S
    → (FileState → Result (BoltError F) S)
    → Result (BoltError F) FileState
    → Result (BoltError F) S
on_state s f (ok state) = f state
on_state s f (err e state) = err e s

-- `binary.BigEndian.PutUint64`
unfoldable pub big_endian : ℕ → Str
big_endian n =
    n / 2 ^ 56 % 256
    ∷ n / 2 ^ 48 % 256
    ∷ n / 2 ^ 40 % 256
    ∷ n / 2 ^ 32 % 256
    ∷ n / 2 ^ 24 % 256
    ∷ n / 2 ^ 16 % 256
    ∷ n / 2 ^ 8 % 256
    ∷ n % 256
    ∷ []

abbrev pub semantic_event : EventKind → Str → Str → Option FileState → Option FileState → Event
semantic_event kind path old_path before after = record {
  kind = kind;
  path = path;
  old_path = old_path;
  before = before;
  after = after;
  source = source_reconcile;
}

abbrev pub created_event : FileState → Event
created_event after = semantic_event event_created after.path [] none (some after)

abbrev pub moved_event : FileState → FileState → Event
moved_event before after =
    semantic_event event_moved after.path before.path (some before) (some after)

abbrev pub deleted_event : FileState → Event
deleted_event before = semantic_event event_deleted before.path [] (some before) none

unfoldable pub same_file_identity : FileState → FileState → Bool
unfolding is_zero equal
same_file_identity before after = is_zero before.id || is_zero after.id || equal before.id after.id

unfoldable pub file_content_metadata_changed : FileState → FileState → Bool
file_content_metadata_changed before after =
    not (file_type_eq before.file_type after.file_type)
    || not (before.size == after.size)
    || not (before.mod_time == after.mod_time)

-- The event between two states of a path, if any.
unfoldable pub pair_event : FileState → FileState → Option Event
unfolding same_file_identity file_content_metadata_changed
pair_event before after =
    if not (same_file_identity before after)
    then some (semantic_event event_replaced after.path [] (some before) (some after))
    else if file_content_metadata_changed before after
    then some (semantic_event event_modified after.path [] (some before) (some after))
    else if not (before.mode == after.mode)
    then some (semantic_event event_attribute_changed after.path [] (some before) (some after))
    else none

module _ {C F : Type 0} (paths : Engine C Str F) where
  -- `indexIdentity`: the path of an identity, or the empty one where several have it.
  unfoldable pub index_identity : Str → Str → C → Result F C
  index_identity [] path c = ok c
  index_identity (x ∷ identity) path c = elim (paths.get c (x ∷ identity)) [
    | none ↦ paths.put (x ∷ identity) path c
    | some value ↦ if str_eq value path then ok c else paths.put (x ∷ identity) [] c
  ]

module _ {B C F : Type 0} (states : Engine B Json F) (limit : ℕ) where
  abbrev pub set_changes : ReconcileReport → Index B C → ℕ → B → Work B C
  set_changes report index n b = record {
    report = report;
    index = record index { changes = b; sequence = n };
  }

  -- `stageReportEvent`; the next sequence number is a `uint64`.
  unfoldable pub stage_report_event : Event → Work B C → Result (BoltError F) (Work B C)
  unfolding encode_staged_event big_endian
  stage_report_event event w =
      let n = (w.index.sequence + 1) % 2 ^ 64 in
      lift_step (set_changes (note_event limit event w.report) w.index n)
        (states.put (big_endian n) (encode_staged_event event) w.index.changes)

  abbrev pub stage_some : Option Event → Work B C → Result (BoltError F) (Work B C)
  stage_some none w = ok w
  stage_some (some event) w = stage_report_event event w

  unfoldable pub stage_created : FileState → Work B C → Result (BoltError F) (Work B C)
  unfolding stage_report_event
  stage_created after w = stage_report_event (created_event after) w

  unfoldable pub stage_deleted : Work B C → FileState → Result (BoltError F) (Work B C)
  unfolding stage_report_event
  stage_deleted w before = stage_report_event (deleted_event before) w

module _ {B C F : Type 0} (states : Engine B Json F) (paths : Engine C Str F) (limit : ℕ) where
  abbrev pub set_matched : Work B C → C → Work B C
  set_matched w c = record w { index = record w.index { matched = c } }

  unfoldable pub mark_matched : Str → Work B C → Result (BoltError F) (Work B C)
  mark_matched path w = lift_step (set_matched w) (paths.put path (1 ∷ []) w.index.matched)

  -- A path of both snapshots.
  unfoldable pub diff_pair :
      Str → FileState → Work B C → FileState → Result (BoltError F) (Work B C)
  unfolding mark_matched stage_report_event pair_event
  diff_pair path after w before =
      mark_matched path w >>= stage_some states limit (pair_event before after)

  unfoldable pub stage_moved :
      Str → FileState → Work B C → FileState → Result (BoltError F) (Work B C)
  unfolding mark_matched stage_report_event
  stage_moved old_path after w before =
      mark_matched old_path w >>= stage_report_event states limit (moved_event before after)

  -- The old path that a new one may have been moved from: that of the same identity, which no
  -- other path of either snapshot has, and which is not matched yet.
  unfoldable pub moved_from : FileState → Index B C → Option Str
  unfolding is_zero
  moved_from after i =
      let old_path = text_of (paths.get i.previous_id after.id.value) in
      if not (is_zero after.id)
        && not (str_eq old_path [])
        && str_eq (text_of (paths.get i.actual_id after.id.value)) after.path
        && not (is_some (paths.get i.matched old_path))
      then some old_path
      else none

  -- A path that the previous snapshot does not have.
  unfoldable pub diff_new : FileState → Work B C → Result (BoltError F) (Work B C)
  unfolding moved_from stage_created stage_moved decode_file_state
  diff_new after w = elim (moved_from after w.index) [
    | none ↦ stage_created states limit after w
    | some old_path ↦ elim (states.get w.index.previous old_path) [
      | none ↦ stage_created states limit after w
      | some value ↦ on_state w (stage_moved old_path after w) (decode_file_state value)
    ]
  ]

  -- The body of the first loop of the diff.
  unfoldable pub diff_actual : Str → Work B C → FileState → Result (BoltError F) (Work B C)
  unfolding diff_new diff_pair decode_file_state
  diff_actual path w after = elim (states.get w.index.previous path) [
    | none ↦ diff_new after w
    | some value ↦ on_state w (diff_pair path after w) (decode_file_state value)
  ]

  unfoldable pub diff_actuals : Map Json → Work B C → Result (BoltError F) (Work B C)
  unfolding diff_actual
  diff_actuals [] w = ok w
  diff_actuals ((path, value) ∷ rest) w =
      on_state w (diff_actual path w) (decode_file_state value) >>= diff_actuals rest

  -- The loop over the previous snapshot.
  unfoldable pub diff_previous : Map Json → Work B C → Result (BoltError F) (Work B C)
  unfolding stage_deleted
  diff_previous [] w = ok w
  diff_previous ((path, value) ∷ rest) w = elim (paths.get w.index.matched path) [
    | some mark ↦ diff_previous rest w
    | none ↦
        on_state w (stage_deleted states limit w) (decode_file_state value) >>= diff_previous rest
  ]
