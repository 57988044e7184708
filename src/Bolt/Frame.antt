-- ===== src/Bolt/Frame.antt =====
-- The diff of reconcile_bolt.go leaves the actual state in the index alone.
use fsrecon.Prelude.{
  ℕ, ◌≡◌, Bool, true, false, Str, Map, Option, none, some, [], ◌∷◌, Result, ok, err, OnOk,
  OnOk-bind, if◌then◌else◌,
}
use fsrecon.State.{FileState, file_type_eq, file_type_regular}
use fsrecon.Event.{Event}
use fsrecon.Config.{ExpectedEntry, ExpectedEntryScope, expected_regular_files, expected_all_entries}
use fsrecon.Bolt.{BoltError, Engine}
use fsrecon.Bolt.Json.{Json}
use fsrecon.Bolt.Codec.{decode_file_state}
use fsrecon.Bolt.Work.{
  Work, created_event, moved_event, deleted_event, lift_step, on_state, pair_event, moved_from,
  stage_report_event, stage_some, stage_created, stage_deleted, stage_moved, mark_matched,
  diff_pair, diff_new, diff_actual, diff_actuals, diff_previous,
}
use fsrecon.Bolt.Expect.{
  missing_event, invalid_event, orphan_event, differs, compare_entry, diff_entry, diff_entries,
  decode_expected, stage_orphan, diff_orphans, diff_expected, diff_index,
}

pub OnOk-lift_step :
    {X S F : Type 0} (P : S → Type 0) (f : X → S) (r : Result F X)
    → ((x : X) → P (f x))
    → OnOk P (lift_step f r)
OnOk-lift_step P f (ok x) h = h x
OnOk-lift_step P f (err e x) h = tt

OnOk-on_state :
    {S F : Type 0} (P : S → Type 0) (s : S) (f : FileState → Result (BoltError F) S)
    (d : Result (BoltError F) FileState)
    → ((state : FileState) → OnOk P (f state))
    → OnOk P (on_state s f d)
OnOk-on_state P s f (ok state) h = h state
OnOk-on_state P s f (err e state) h = tt

pub OnOk-if :
    {S E : Type 0} (P : S → Type 0) (c : Bool) (r q : Result E S)
    → OnOk P r
    → OnOk P q
    → OnOk P (if c then r else q)
OnOk-if P true r q h k = h
OnOk-if P false r q h k = k

pub OnOk-option :
    {S E A : Type 0} (P : S → Type 0) (o : Option A) (r : Result E S) (f : A → Result E S)
    → OnOk P r
    → ((a : A) → OnOk P (f a))
    → OnOk P (elim o [ none ↦ r | some a ↦ f a ])
OnOk-option P none r f h k = h
OnOk-option P (some a) r f h k = k a

-- The index has an actual state.
abbrev pub Keeps : {B C : Type 0} → B → Work B C → Type 0
Keeps a w = w.index.actual ≡ a

module _ {B C F : Type 0} (states : Engine B Json F) (limit : ℕ) (a : B) where
  pub stage_report_event-Keeps :
      (event : Event) (w : Work B C)
      → Keeps a w
      → OnOk (Keeps a) (stage_report_event states limit event w)
  unfolding stage_report_event
  stage_report_event-Keeps event w h = OnOk-lift_step (Keeps a) _ _ (λ b. h)

  stage_some-Keeps :
      (o : Option Event) (w : Work B C) → Keeps a w → OnOk (Keeps a) (stage_some states limit o w)
  stage_some-Keeps none w h = h
  stage_some-Keeps (some event) w h = stage_report_event-Keeps event w h

  stage_created-Keeps :
      (after : FileState) (w : Work B C)
      → Keeps a w
      → OnOk (Keeps a) (stage_created states limit after w)
  unfolding stage_created
  stage_created-Keeps after w h = stage_report_event-Keeps (created_event after) w h

module _ {B C F : Type 0} (states : Engine B Json F) (paths : Engine C Str F) (limit : ℕ)
    (a : B) where
  mark_matched-Keeps :
      (path : Str) (w : Work B C)
      → Keeps a w
      → OnOk (Keeps a) (mark_matched states paths limit path w)
  unfolding mark_matched
  mark_matched-Keeps path w h = OnOk-lift_step (Keeps a) _ _ (λ c. h)

  diff_pair-Keeps :
      (path : Str) (after before : FileState) (w : Work B C)
      → Keeps a w
      → OnOk (Keeps a) (diff_pair states paths limit path after w before)
  unfolding diff_pair
  diff_pair-Keeps path after before w h =
      OnOk-bind (Keeps a) (Keeps a) (mark_matched states paths limit path w)
        (stage_some states limit (pair_event before after)) (mark_matched-Keeps path w h)
        (λ w' k. stage_some-Keeps states limit a (pair_event before after) w' k)

  stage_moved-Keeps :
      (path : Str) (after before : FileState) (w : Work B C)
      → Keeps a w
      → OnOk (Keeps a) (stage_moved states paths limit path after w before)
  unfolding stage_moved
  stage_moved-Keeps path after before w h =
      OnOk-bind (Keeps a) (Keeps a) (mark_matched states paths limit path w) _
        (mark_matched-Keeps path w h)
        (λ w' k. stage_report_event-Keeps states limit a (moved_event before after) w' k)

  diff_new-Keeps :
      (after : FileState) (w : Work B C)
      → Keeps a w
      → OnOk (Keeps a) (diff_new states paths limit after w)
  unfolding diff_new
  diff_new-Keeps after w h =
      OnOk-option (Keeps a) (moved_from states paths limit after w.index) _ _
        (stage_created-Keeps states limit a after w h)
        (λ old_path.
          OnOk-option (Keeps a) (states.get w.index.previous old_path) _ _
            (stage_created-Keeps states limit a after w h)
            (λ value.
              OnOk-on_state (Keeps a) w (stage_moved states paths limit old_path after w)
                (decode_file_state value) (λ before. stage_moved-Keeps old_path after before w h)))

  diff_actual-Keeps :
      (path : Str) (after : FileState) (w : Work B C)
      → Keeps a w
      → OnOk (Keeps a) (diff_actual states paths limit path w after)
  unfolding diff_actual
  diff_actual-Keeps path after w h =
      OnOk-option (Keeps a) (states.get w.index.previous path) _ _ (diff_new-Keeps after w h)
        (λ value.
          OnOk-on_state (Keeps a) w (diff_pair states paths limit path after w)
            (decode_file_state value) (λ before. diff_pair-Keeps path after before w h))

  diff_actuals-Keeps :
      (m : Map Json) (w : Work B C)
      → Keeps a w
      → OnOk (Keeps a) (diff_actuals states paths limit m w)
  unfolding diff_actuals
  diff_actuals-Keeps [] w h = h
  diff_actuals-Keeps ((path, value) ∷ m) w h =
      OnOk-bind (Keeps a) (Keeps a) _ (diff_actuals states paths limit m)
        (OnOk-on_state (Keeps a) w (diff_actual states paths limit path w) (decode_file_state value)
          (λ after. diff_actual-Keeps path after w h))
        (diff_actuals-Keeps m)

  diff_previous-Keeps :
      (m : Map Json) (w : Work B C)
      → Keeps a w
      → OnOk (Keeps a) (diff_previous states paths limit m w)
  unfolding diff_previous stage_deleted
  diff_previous-Keeps [] w h = h
  diff_previous-Keeps ((path, value) ∷ m) w h =
      OnOk-option (Keeps a) (paths.get w.index.matched path) _ _
        (OnOk-bind (Keeps a) (Keeps a) _ (diff_previous states paths limit m)
          (OnOk-on_state (Keeps a) w (stage_deleted states limit w) (decode_file_state value)
            (λ before. stage_report_event-Keeps states limit a (deleted_event before) w h))
          (diff_previous-Keeps m))
        (λ mark. diff_previous-Keeps m w h)

module _ {B C F : Type 0} (states : Engine B Json F) (limit : ℕ) (a : B) where
  diff_entry-Keeps :
      (path : Str) (entry : Option ExpectedEntry) (w : Work B C)
      → Keeps a w
      → OnOk (Keeps a) (diff_entry states limit path w entry)
  unfolding diff_entry compare_entry
  diff_entry-Keeps path none w h = tt
  diff_entry-Keeps path (some entry) w h =
      OnOk-option (Keeps a) (states.get w.index.actual path) _ _
        (stage_report_event-Keeps states limit a (missing_event entry.path) w h)
        (λ value.
          OnOk-on_state (Keeps a) w (compare_entry states limit entry w) (decode_file_state value)
            (λ state.
              OnOk-if (Keeps a) (differs entry state) _ _
                (stage_report_event-Keeps states limit a (invalid_event state) w h) h))

  diff_entries-Keeps :
      (m : Map Json) (w : Work B C) → Keeps a w → OnOk (Keeps a) (diff_entries states limit m w)
  unfolding diff_entries
  diff_entries-Keeps [] w h = h
  diff_entries-Keeps ((path, value) ∷ m) w h =
      OnOk-bind (Keeps a) (Keeps a) _ (diff_entries states limit m)
        (diff_entry-Keeps path (decode_expected value) w h) (diff_entries-Keeps m)

  stage_orphan-Keeps :
      (scope : ExpectedEntryScope) (state : FileState) (w : Work B C)
      → Keeps a w
      → OnOk (Keeps a) (stage_orphan states limit scope w state)
  unfolding stage_orphan
  stage_orphan-Keeps expected_all_entries state w h =
      stage_report_event-Keeps states limit a (orphan_event state) w h
  stage_orphan-Keeps expected_regular_files state w h =
      OnOk-if (Keeps a) (file_type_eq state.file_type file_type_regular) _ _
        (stage_report_event-Keeps states limit a (orphan_event state) w h) h

  diff_orphans-Keeps :
      (scope : ExpectedEntryScope) (m : Map Json) (w : Work B C)
      → Keeps a w
      → OnOk (Keeps a) (diff_orphans states limit scope m w)
  unfolding diff_orphans
  diff_orphans-Keeps scope [] w h = h
  diff_orphans-Keeps scope ((path, value) ∷ m) w h =
      OnOk-option (Keeps a) (states.get w.index.expected path) _ _
        (OnOk-bind (Keeps a) (Keeps a) _ (diff_orphans states limit scope m)
          (OnOk-on_state (Keeps a) w (stage_orphan states limit scope w) (decode_file_state value)
            (λ state. stage_orphan-Keeps scope state w h))
          (diff_orphans-Keeps scope m))
        (λ entry. diff_orphans-Keeps scope m w h)

module _ {B C F : Type 0} (states : Engine B Json F) (paths : Engine C Str F) (limit : ℕ)
    (a : B) where
  diff_expected-Keeps :
      (enabled : Bool) (scope : ExpectedEntryScope) (w : Work B C)
      → Keeps a w
      → OnOk (Keeps a) (diff_expected states paths limit enabled scope w)
  unfolding diff_expected
  diff_expected-Keeps false scope w h = h
  diff_expected-Keeps true scope w h =
      OnOk-bind (Keeps a) (Keeps a) (diff_entries states limit (states.pairs w.index.expected) w) _
        (diff_entries-Keeps states limit a (states.pairs w.index.expected) w h)
        (λ w' k. diff_orphans-Keeps states limit a scope (states.pairs w'.index.actual) w' k)

  pub diff_index-Keeps :
      (enabled : Bool) (scope : ExpectedEntryScope) (w : Work B C)
      → Keeps a w
      → OnOk (Keeps a) (diff_index states paths limit enabled scope w)
  unfolding diff_index
  diff_index-Keeps enabled scope w h =
      OnOk-bind (Keeps a) (Keeps a)
        (diff_actuals states paths limit (states.pairs w.index.actual) w) _
        (diff_actuals-Keeps states paths limit a (states.pairs w.index.actual) w h)
        (λ w' k.
          OnOk-bind (Keeps a) (Keeps a)
            (diff_previous states paths limit (states.pairs w'.index.previous) w') _
            (diff_previous-Keeps states paths limit a (states.pairs w'.index.previous) w' k)
            (diff_expected-Keeps enabled scope))
