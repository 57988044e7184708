-- ===== src/Examples/BoltReconcile.antt =====
-- reconcile_bolt.go on a root with one new file, and a snapshot with another.
use fsrecon.Prelude.{
  ℕ, ◌≡◌, refl, str_eq, str_leb, get, put, keys, Str, Map, none, List, [], ◌∷◌, bytes,
}
use fsrecon.Event.{Event, EventKind, event_created, event_deleted}
use fsrecon.Scanner.{state_from_entry, is_regular, is_dir, is_symlink, file_type}
use fsrecon.Config.{Config}
use fsrecon.FilePath.{path_has_prefix, starts_with, ends_slash}
use fsrecon.Convert.{count_event, add_report_event}
use fsrecon.Reconcile.{send_events}
use fsrecon.Reconcile.Gather.{Run, new_run}
use fsrecon.Bolt.{Engine}
use fsrecon.Bolt.Table.{table, sort_pairs, insert_pair}
use fsrecon.Bolt.Utf8.{rune_size, to_valid, valid_from}
use fsrecon.Bolt.Json.{Json}
use fsrecon.Bolt.Codec.{encode_file_state}
use fsrecon.Bolt.Reconcile.{IndexPorts, BoltReply, reconcile_bolt_locked}
use fsrecon.Examples.Bolt.{engine, store_of, file_b}
use fsrecon.Examples.Reconcile.{World, config, ports, backend, idle}

abbrev paths : Engine (Map Str) Str Str
paths = table (bytes "key required")

abbrev committing : IndexPorts (Map Json) (Map Str) Str
committing = record { make_index = none; commit = λ index. none }

-- The path by way of an index is taken without a sink.
abbrev quiet : Config World Str
quiet = record config { change_sink = none }

abbrev started : Run World ℕ
started = new_run (bytes "/r") 5 idle

abbrev reconciled : BoltReply World ℕ (Map Json) Str Str
reconciled =
    reconcile_bolt_locked quiet ports backend engine paths committing (store_of (file_b ∷ []))
      started

abbrev kinds : List Event → List EventKind
kinds [] = []
kinds (event ∷ events) = event.kind ∷ kinds events

one_of_each :
    (reconciled.error ≡ none)
    × (kinds reconciled.report.events ≡ event_created ∷ event_deleted ∷ [])
unfolding reconcile_bolt_locked sort_pairs insert_pair str_eq str_leb path_has_prefix
    encode_file_state starts_with ends_slash to_valid valid_from rune_size state_from_entry
    file_type is_regular is_dir is_symlink count_event add_report_event get put keys send_events
one_of_each = (refl, refl)
