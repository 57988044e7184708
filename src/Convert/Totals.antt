-- ===== src/Convert/Totals.antt =====
-- reconcile.go: the counters, the kept events and the truncation count of a report after a list of
-- events.
use fsrecon.Prelude.{
  ℕ, zero, suc, ◌+◌, ◌-◌, ◌%◌, ◌^◌, ◌≡◌, ◌∙◌, ap, sym, List, [], ◌∷◌, ◌++◌, arith, length,
  length-append, take, append_assoc, append-nil, ltb, Bool, true, false, if◌then◌else◌,
}
use fsrecon.Event.{
  Event, EventKind, event_created, event_modified, event_deleted, event_moved,
  event_attribute_changed, event_missing, event_orphan, event_replaced, event_invalid,
  event_corrupt, ReconcileReport, zero_report,
}
use fsrecon.Delivery.{incr64}
use fsrecon.Convert.{count_event, add_report_event, note_event, note_events}

-- The part of a report that an event kind belongs to.
pub data Counter : Type 0 where
  counts_created counts_modified counts_deleted counts_moved counts_replaced : Counter
  counts_missing counts_orphan counts_invalid counts_corrupt : Counter

abbrev pub counter_value : Counter → ReconcileReport → ℕ
counter_value counts_created r = r.created
counter_value counts_modified r = r.modified
counter_value counts_deleted r = r.deleted
counter_value counts_moved r = r.moved
counter_value counts_replaced r = r.replaced
counter_value counts_missing r = r.missing
counter_value counts_orphan r = r.orphan
counter_value counts_invalid r = r.invalid
counter_value counts_corrupt r = r.corrupt

abbrev pub belongs : Counter → EventKind → Bool
belongs counts_created event_created = true
belongs counts_modified event_modified = true
belongs counts_modified event_attribute_changed = true
belongs counts_deleted event_deleted = true
belongs counts_moved event_moved = true
belongs counts_replaced event_replaced = true
belongs counts_missing event_missing = true
belongs counts_orphan event_orphan = true
belongs counts_invalid event_invalid = true
belongs counts_corrupt event_corrupt = true
belongs c k = false

abbrev pub one_if : Bool → ℕ
one_if true = 1
one_if false = 0

unfoldable pub number_of : Counter → List Event → ℕ
number_of c [] = 0
number_of c (event ∷ events) = one_if (belongs c event.kind) + number_of c events

incr64-mod : (k : ℕ) → incr64 (k % 2 ^ 64) ≡ (k + 1) % 2 ^ 64
incr64-mod k = omega arith

counter-count_event :
    (c : Counter) (kind : EventKind) (r : ReconcileReport)
    → counter_value c (count_event kind r)
      ≡ (if belongs c kind then incr64 (counter_value c r) else counter_value c r)
unfolding count_event
counter-count_event c kind r = ground arith

counter-add_report_event :
    (c : Counter) (limit : ℕ) (event : Event) (r : ReconcileReport)
    → counter_value c (add_report_event limit event r) ≡ counter_value c r
unfolding add_report_event
counter-add_report_event c limit event r = ground arith

pub counter-note_events :
    (c : Counter) (limit : ℕ) (events : List Event) (r : ReconcileReport) (k : ℕ)
    → counter_value c r ≡ k % 2 ^ 64
    → counter_value c (note_events limit events r) ≡ (k + number_of c events) % 2 ^ 64
unfolding note_events number_of
counter-note_events c limit [] r k h = omega arith
counter-note_events c limit (event ∷ events) r k h =
    counter-note_events c limit events (note_event limit event r)
      (k + one_if (belongs c event.kind))
      (counter-add_report_event c limit event (count_event event.kind r)
        ∙ counter-count_event c event.kind r
        ∙ ground (arith, incr64-mod k))
    ∙ ap (λ n. n % 2 ^ 64) (omega arith)

events-note_event :
    (limit : ℕ) (event : Event) (r : ReconcileReport)
    → ((note_event limit event r).events
        ≡ (if ltb (length r.events) limit then r.events ++ event ∷ [] else r.events))
      × ((note_event limit event r).events_truncated
          ≡ (if ltb (length r.events) limit then r.events_truncated else incr64 r.events_truncated))
unfolding count_event add_report_event
events-note_event limit event r = (ground arith, ground arith)

-- With room for `m` more events.
events-note_events :
    (limit m : ℕ) (events : List Event) (r : ReconcileReport)
    → length r.events + m ≡ limit
    → (note_events limit events r).events ≡ r.events ++ take m events
unfolding note_events
events-note_events limit zero [] r h = sym (append-nil r.events)
events-note_events limit (suc m) [] r h = sym (append-nil r.events)
events-note_events limit zero (event ∷ events) r h = ground (
  arith,
  events-note_events limit zero events (note_event limit event r),
  events-note_event limit event r,
  append-nil r.events,
)
events-note_events limit (suc m) (event ∷ events) r h = ground (
  arith,
  events-note_events limit m events (note_event limit event r),
  events-note_event limit event r,
  length-append r.events (event ∷ []),
  append_assoc r.events (event ∷ []) (take m events),
)

truncated-note_events :
    (limit m : ℕ) (events : List Event) (r : ReconcileReport) (k : ℕ)
    → length r.events + m ≡ limit
    → r.events_truncated ≡ k % 2 ^ 64
    → (note_events limit events r).events_truncated ≡ (k + (length events - m)) % 2 ^ 64
unfolding note_events
truncated-note_events limit m [] r k h e = omega arith
truncated-note_events limit zero (event ∷ events) r k h e = ground (
  arith,
  truncated-note_events limit zero events (note_event limit event r) (k + 1),
  events-note_event limit event r,
  incr64-mod k,
)
truncated-note_events limit (suc m) (event ∷ events) r k h e = ground (
  arith,
  truncated-note_events limit m events (note_event limit event r) k,
  events-note_event limit event r,
  length-append r.events (event ∷ []),
)

-- After a list of events, each counter of a report holds the number of its events, the report
-- keeps the first events up to the limit, and counts those beyond; counts wrap around at 2 ^ 64.
pub note_events-totals :
    (limit : ℕ) (events : List Event)
    → let r = note_events limit events zero_report in
      ((c : Counter) → counter_value c r ≡ number_of c events % 2 ^ 64)
      × (r.events ≡ take limit events)
      × (r.events_truncated ≡ (length events - limit) % 2 ^ 64)
note_events-totals limit events = (
  λ c.
      counter-note_events c limit events zero_report 0 (zero_counter c)
      ∙ ap (λ n. n % 2 ^ 64) (omega arith),
  events-note_events limit limit events zero_report (omega arith),
  truncated-note_events limit limit events zero_report 0 (omega arith) (omega arith)
      ∙ ap (λ n. n % 2 ^ 64) (omega arith),
)
  where
    zero_counter : (c : Counter) → counter_value c zero_report ≡ 0 % 2 ^ 64
    zero_counter c = ground arith
