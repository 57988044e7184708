-- ===== src/Examples/Convert.antt =====
-- reconcile.go: the report of three events with room for two.
use fsrecon.Prelude.{◌-◌, ◌%◌, ◌^◌, ◌≡◌, refl, bytes, none, List, [], ◌∷◌, length, take}
use fsrecon.Event.{
  Event, EventKind, event_created, event_attribute_changed, event_modified, source_reconcile,
  zero_report,
}
use fsrecon.Convert.{note_events, count_event, add_report_event}
use fsrecon.Convert.Totals.{Counter, counter_value, number_of, note_events-totals}

abbrev event : EventKind → Event
event kind = record {
  kind = kind;
  path = bytes "/r/a";
  old_path = [];
  before = none;
  after = none;
  source = source_reconcile;
}

abbrev three : List Event
three = event event_created ∷ event event_attribute_changed ∷ event event_modified ∷ []

both_modified : (note_events 2 three zero_report).modified ≡ 2
unfolding note_events count_event add_report_event
both_modified = refl

note_events-totals_example :
    let r = note_events 2 three zero_report in
    ((c : Counter) → counter_value c r ≡ number_of c three % 2 ^ 64)
    × (r.events ≡ take 2 three)
    × (r.events_truncated ≡ (length three - 2) % 2 ^ 64)
note_events-totals_example = note_events-totals 2 three
