-- ===== src/Bolt/Codec.antt =====
-- bolt_store.go and reconcile_bolt.go: the documents in which the store keeps states and a
-- reconciliation stages events. Codes that name no `FileType`, `EventKind` or `EventSource` are
-- kept by the source and refused here, where these types have no other values; no document that
-- the program writes has one. A field whose value has the wrong kind is `malformed`.
use fsrecon.Prelude.{
  ℕ, ◌^◌, ◌<◌, ◌≡◌, refl, Str, Option, none, some, [], ◌∷◌, ◌==◌, if◌then◌else◌, bytes, str_eq,
  Result, ok, err, arith,
}
use fsrecon.State.{
  FileState, FileType, new_file_id, zero_file_state, file_type_code, file_type_unknown,
  file_type_regular, file_type_directory, file_type_symlink, file_type_other,
}
use fsrecon.Bolt.{BoltError, malformed, unsupported_schema}
use fsrecon.Bolt.Utf8.{to_valid, valid_from}
use fsrecon.Bolt.Json.{
  Json, number, instant, object, end, field, string_value, omit_empty, lookup, ◌>>◌, as_string,
  as_number, as_instant,
}

-- `storedFileState`; the type is its `uint8`.
pub record StoredFileState : Type 0 where
  pub path : Str
  pub id : Str
  pub file_type : ℕ
  pub size : ℕ
  pub mod_time : ℕ
  pub mode : ℕ
  pub schema : ℕ

-- The value behind `storedState`; `uint32(state.Mode)` keeps it, since `fs.FileMode` is a `uint32`.
abbrev pub stored_state : FileState → StoredFileState
stored_state s = record {
  path = s.path;
  id = s.id.value;
  file_type = file_type_code s.file_type;
  size = s.size;
  mod_time = s.mod_time;
  mode = s.mode;
  schema = 1;
}

abbrev pub file_type_of_code : ℕ → Option FileType
file_type_of_code n =
    if n == 0
    then some file_type_unknown
    else if n == 1
    then some file_type_regular
    else if n == 2
    then some file_type_directory
    else if n == 3
    then some file_type_symlink
    else if n == 4
    then some file_type_other
    else none

-- The value behind `fileStateFromStored`, which does not look at the schema.
unfoldable pub file_state_from_stored : StoredFileState → Option FileState
file_state_from_stored s = file_type_of_code s.file_type >> λ t. some (record {
  path = s.path;
  id = new_file_id s.id;
  file_type = t;
  size = s.size;
  mod_time = s.mod_time;
  mode = s.mode;
})

-- `json.Marshal` of a `storedFileState`
unfoldable pub marshal_state : StoredFileState → Json
marshal_state s = object (
    field (bytes "path") (string_value s.path) (
      omit_empty (bytes "id") s.id (
        field (bytes "type") (number s.file_type) (
          field (bytes "size") (number s.size) (
            field (bytes "mod_time") (instant s.mod_time) (
              field (bytes "mode") (number s.mode)
                (field (bytes "schema") (number s.schema) end)))))))

-- `json.Unmarshal` into one. An `int64` is its bit pattern.
unfoldable pub unmarshal_state : Json → Option StoredFileState
unfolding lookup
unmarshal_state (object fs) = as_string (lookup (bytes "path") fs) >> λ path.
    as_string (lookup (bytes "id") fs) >> λ id.
    as_number (2 ^ 8) (lookup (bytes "type") fs) >> λ file_type.
    as_number (2 ^ 64) (lookup (bytes "size") fs) >> λ size.
    as_instant (lookup (bytes "mod_time") fs) >> λ mod_time.
    as_number (2 ^ 32) (lookup (bytes "mode") fs) >> λ mode.
    as_number (2 ^ 8) (lookup (bytes "schema") fs) >> λ schema. some (record {
      path = path;
      id = id;
      file_type = file_type;
      size = size;
      mod_time = mod_time;
      mode = mode;
      schema = schema;
    })
unmarshal_state v = none

-- `encodeFileState`
unfoldable pub encode_file_state : FileState → Json
unfolding marshal_state
encode_file_state s = marshal_state (stored_state s)

-- `decodeFileState`, from the zero state, which a failure leaves.
unfoldable pub decode_file_state : {F : Type 0} → Json → Result (BoltError F) FileState
unfolding unmarshal_state file_state_from_stored
decode_file_state v = elim (unmarshal_state v) [
  | none ↦ err malformed zero_file_state
  | some s ↦
      if s.schema == 1
      then (elim (file_state_from_stored s) [
        | none ↦ err malformed zero_file_state
        | some state ↦ ok state
      ])
      else err (unsupported_schema s.schema) zero_file_state
]

-- What a document keeps of a state: its path and identity as valid UTF-8.
abbrev pub as_written : FileState → FileState
as_written s = record s { path = to_valid s.path; id = new_file_id (to_valid s.id.value) }

abbrev pub stored_as_written : StoredFileState → StoredFileState
stored_as_written s = record s { path = to_valid s.path; id = to_valid s.id }

abbrev stored : Str → Str → ℕ → ℕ → ℕ → ℕ → ℕ → StoredFileState
stored path id file_type size mod_time mode schema = record {
  path = path;
  id = id;
  file_type = file_type;
  size = size;
  mod_time = mod_time;
  mode = mode;
  schema = schema;
}

unmarshal-marshal :
    (path id : Str) (file_type size mod_time mode schema : ℕ)
    → file_type < 2 ^ 8
    → size < 2 ^ 64
    → mode < 2 ^ 32
    → schema < 2 ^ 8
    → unmarshal_state (marshal_state (stored path id file_type size mod_time mode schema))
      ≡ some (stored (to_valid path) (to_valid id) file_type size mod_time mode schema)
unfolding marshal_state unmarshal_state lookup str_eq to_valid valid_from
unmarshal-marshal path [] t n i m c h1 h2 h3 h4 = ground arith
unmarshal-marshal path (x ∷ id) t n i m c h1 h2 h3 h4 = ground arith

file_type_of_code-code : (t : FileType) → file_type_of_code (file_type_code t) ≡ some t
file_type_of_code-code file_type_unknown = refl
file_type_of_code-code file_type_regular = refl
file_type_of_code-code file_type_directory = refl
file_type_of_code-code file_type_symlink = refl
file_type_of_code-code file_type_other = refl

file_type_code-lt : (t : FileType) → file_type_code t < 2 ^ 8
file_type_code-lt file_type_unknown = omega arith
file_type_code-lt file_type_regular = omega arith
file_type_code-lt file_type_directory = omega arith
file_type_code-lt file_type_symlink = omega arith
file_type_code-lt file_type_other = omega arith

-- Do the numbers of a state fit their Go types?
abbrev pub Fits : FileState → Type 0
Fits s = (s.size < 2 ^ 64) × (s.mode < 2 ^ 32)

pub unmarshal-encode :
    (s : FileState)
    → Fits s
    → unmarshal_state (encode_file_state s) ≡ some (stored_as_written (stored_state s))
unfolding encode_file_state
unmarshal-encode s h =
    unmarshal-marshal s.path s.id.value (file_type_code s.file_type) s.size s.mod_time s.mode 1
      (file_type_code-lt s.file_type) h.0 h.1 (omega arith)

pub from_stored-written :
    (s : FileState)
    → file_state_from_stored (stored_as_written (stored_state s)) ≡ some (as_written s)
unfolding file_state_from_stored
from_stored-written s = rw file_type_of_code-code refl

-- Decoding the document of a state whose size and mode fit their Go types gives that state, its
-- path and its identity made valid UTF-8, whatever they are.
pub decode-encode :
    {F : Type 0} (s : FileState)
    → Fits s
    → decode_file_state {F = F} (encode_file_state s) ≡ ok (as_written s)
unfolding decode_file_state encode_file_state to_valid str_eq
decode-encode s h = rw (unmarshal-encode s h, from_stored-written s) refl
