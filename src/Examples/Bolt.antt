-- ===== src/Examples/Bolt.antt =====
-- Runs of the Bolt store and its documents, on an engine in memory.
use fsrecon.Prelude.{
  ℕ, ◌≡◌, refl, ◌⊎◌, Bool, true, false, Str, Map, some, List, [], ◌∷◌, ◌++◌, ap, str_eq, str_leb,
  bytes, Result, ok, err, get, keys, All, arith,
}
use fsrecon.State.{FileState, file_type_regular, new_file_id}
use fsrecon.Event.{Event, event_moved, source_reconcile}
use fsrecon.FilePath.{starts_with, path_has_prefix, ends_slash}
use fsrecon.Store
use fsrecon.Store.{MemoryStore, new_memory_store}
use fsrecon.Bolt.{BoltError, Engine}
use fsrecon.Bolt.Table.{table, table-IsLawful, sort_pairs, insert_pair, commit}
use fsrecon.Bolt.Utf8.{is_utf8, is_utf8_from, to_valid, valid_from, rune_size}
use fsrecon.Bolt.Json.{Json}
use fsrecon.Bolt.Codec.{encode_file_state, decode_file_state, as_written, decode-encode}
use fsrecon.Bolt.Events.{
  encode_staged_event, decode_staged_event, event_as_written, decode-encode_event,
}
use fsrecon.Bolt.Snapshot.{BoltStore, apply, get_state, read_value, replace_snapshot, walk_scope}
use fsrecon.Bolt.Contract.{Agrees, IsWritable, apply-Agrees, replace_snapshot-get}
use fsrecon.Bolt.Total.{apply-succeeds}
use fsrecon.Bolt.Scope.{AreSeparate, in_scope, visit_all, walk_scope-in_scope}

abbrev file : Str → Str → ℕ → FileState
file path id size = record {
  path = path;
  id = new_file_id id;
  file_type = file_type_regular;
  size = size;
  mod_time = 7;
  mode = 420;
}

abbrev file_a : FileState
file_a = file (bytes "/r/a") (bytes "1:1") 5

abbrev pub file_b : FileState
file_b = file (bytes "/r/b") [] 6

-- A name that is not UTF-8.
abbrev file_raw : FileState
file_raw = file (bytes "/r/" ++ 255 ∷ []) (bytes "1:2") 8

decode-encode_example :
    decode_file_state {F = Str} (encode_file_state file_raw) ≡ ok (as_written file_raw)
decode-encode_example = decode-encode file_raw (omega arith, omega arith)

raw_path : (as_written file_raw).path ≡ bytes "/r/" ++ 239 ∷ 191 ∷ 189 ∷ []
unfolding to_valid valid_from rune_size
raw_path = refl

abbrev moved : Event
moved = record {
  kind = event_moved;
  path = bytes "/r/b";
  old_path = bytes "/r/a";
  before = some file_a;
  after = some file_b;
  source = source_reconcile;
}

decode-encode_event_example :
    decode_staged_event (encode_staged_event moved) ≡ some (event_as_written moved)
decode-encode_event_example =
    decode-encode_event moved (omega arith, omega arith) (omega arith, omega arith)

abbrev pub engine : Engine (Map Json) Json Str
engine = table (bytes "key required")

abbrev empty_store : BoltStore (Map Json)
empty_store = record { db = []; closed = false }

abbrev never : ℕ → Bool
never n = false

file_a-IsWritable : IsWritable file_a
unfolding is_utf8 is_utf8_from rune_size
file_a-IsWritable = ((omega arith, omega arith), refl, refl)

file_b-IsWritable : IsWritable file_b
unfolding is_utf8 is_utf8_from rune_size
file_b-IsWritable = ((omega arith, omega arith), refl, refl)

empty-Agrees : Agrees engine empty_store new_memory_store
unfolding get_state read_value get
empty-Agrees p = refl

abbrev two_files : List FileState
two_files = file_a ∷ file_b ∷ []

apply-Agrees_example :
    ((s : BoltStore (Map Json)) × (apply engine never two_files (bytes "/r/c" ∷ []) empty_store
        ≡ ok s)
      × Agrees engine s
          (Store.put_entries two_files (Store.delete_entries (bytes "/r/c" ∷ []) new_memory_store)))
    ⊎ ((e : BoltError Str) × (apply engine never two_files (bytes "/r/c" ∷ []) empty_store
          ≡ err e empty_store))
apply-Agrees_example =
    apply-Agrees engine (table-IsLawful (bytes "key required")) never two_files (bytes "/r/c" ∷ [])
      empty_store new_memory_store refl (file_a-IsWritable, (file_b-IsWritable, tt)) empty-Agrees

apply-succeeds_example :
    (s : BoltStore (Map Json)) × (apply engine never two_files (bytes "/r/c" ∷ []) empty_store
      ≡ ok s)
    × Agrees engine s
        (Store.put_entries two_files (Store.delete_entries (bytes "/r/c" ∷ []) new_memory_store))
apply-succeeds_example =
    apply-succeeds engine (table-IsLawful (bytes "key required")) never two_files
      (bytes "/r/c" ∷ []) empty_store new_memory_store refl (λ n. refl) taken commits
      (file_a-IsWritable, (file_b-IsWritable, tt)) empty-Agrees
  where
    taken : All (λ x. engine.takes x.path (encode_file_state x) ≡ true) two_files
    taken = unfold str_eq in (refl, (refl, tt))

    commits :
        (f : Map Json → Result (BoltError Str) (Map Json)) (b b' : Map Json)
        → f b ≡ ok b'
        → engine.update f b ≡ ok b'
    commits f b b' h = ap (commit b) h

abbrev pub store_of : List FileState → BoltStore (Map Json)
store_of [] = empty_store
store_of (s ∷ states) = record {
  db = (s.path, encode_file_state s) ∷ (store_of states).db;
  closed = false;
}

replace_snapshot-get_example :
    ((b : Map Json) × (replace_snapshot engine never
          (store_of two_files).db
          (store_of (file_raw ∷ []))
        ≡ ok (record { db = b; closed = false }))
      × ((k : Str) → get b k ≡ get (store_of two_files).db k))
    ⊎ ((e : BoltError Str) × (replace_snapshot engine never
            (store_of two_files).db
            (store_of (file_raw ∷ []))
          ≡ err e (store_of (file_raw ∷ []))))
replace_snapshot-get_example =
    replace_snapshot-get engine (table-IsLawful (bytes "key required")) never
      (store_of two_files).db (store_of (file_raw ∷ []))

-- A visitor that lists the paths.
abbrev list_path : FileState → List Str → Result (BoltError Str) (List Str)
list_path s paths = ok (s.path ∷ paths)

abbrev subtree : List FileState
subtree =
    file (bytes "/r/a") (bytes "1:1") 0
    ∷ file (bytes "/r/a/x") (bytes "1:3") 1
    ∷ file (bytes "/r/b") (bytes "1:4") 2
    ∷ []

subtree-AreSeparate : AreSeparate (bytes "/r/a") (engine.pairs (store_of subtree).db)
unfolding sort_pairs insert_pair keys starts_with path_has_prefix str_eq str_leb ends_slash
subtree-AreSeparate = (refl, (refl, (refl, tt)))

walk_scope-in_scope_example :
    walk_scope engine (store_of subtree) (λ _. false) (bytes "/r/a") list_path []
    ≡ visit_all list_path (in_scope (bytes "/r/a") (engine.pairs (store_of subtree).db)) []
walk_scope-in_scope_example =
    walk_scope-in_scope engine (table-IsLawful (bytes "key required")) (store_of subtree)
      (bytes "/r/a") list_path [] refl subtree-AreSeparate

-- A sibling between a directory and its entries ends the walk before them.
abbrev cut_off : List FileState
cut_off =
    file (bytes "/r/a") (bytes "1:1") 0
    ∷ file (bytes "/r/a.txt") (bytes "1:5") 0
    ∷ file (bytes "/r/a/x") (bytes "1:3") 1
    ∷ []

walk_cut_off :
    walk_scope engine (store_of cut_off) (λ _. false) (bytes "/r/a") list_path []
    ≡ ok (bytes "/r/a" ∷ [])
unfolding walk_scope sort_pairs str_eq str_leb path_has_prefix encode_file_state starts_with
    ends_slash to_valid rune_size
walk_cut_off = refl
