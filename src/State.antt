-- ===== src/State.antt =====
-- state.go: file identities, types and the metadata of one entry. A `time.Time` is its instant,
-- the bit pattern of `UnixNano`; locations and monotonic readings are left out, since nothing
-- compares them.
use fsrecon.Prelude.{ℕ, Bool, Option, none, some, ◌&&◌, not, ◌==◌, Str, [], str_eq}

pub record FileId : Type 0 where
  pub value : Str

abbrev pub new_file_id : Str → FileId
new_file_id value = record { value = value }

unfoldable pub is_zero : FileId → Bool
is_zero id = str_eq id.value []

-- `Equal`: two identities that are not zero and the same.
unfoldable pub equal : FileId → FileId → Bool
equal id other = not (str_eq id.value []) && str_eq id.value other.value

-- `MarshalText`, which does not fail, and `UnmarshalText`, which fails on a nil receiver.
abbrev pub marshal_text : FileId → Str
marshal_text id = id.value

abbrev pub unmarshal_text : Option FileId → Str → Option FileId
unmarshal_text none text = none
unmarshal_text (some id) text = some (new_file_id text)

pub data FileType : Type 0 where
  file_type_unknown file_type_regular file_type_directory file_type_symlink file_type_other :
      FileType

abbrev pub file_type_code : FileType → ℕ
file_type_code file_type_unknown = 0
file_type_code file_type_regular = 1
file_type_code file_type_directory = 2
file_type_code file_type_symlink = 3
file_type_code file_type_other = 4

abbrev pub file_type_eq : FileType → FileType → Bool
file_type_eq a b = file_type_code a == file_type_code b

pub record FileState : Type 0 where
  pub path : Str
  pub id : FileId
  pub file_type : FileType
  pub size : ℕ
  pub mod_time : ℕ
  pub mode : ℕ

abbrev pub zero_file_state : FileState
zero_file_state = record {
  path = [];
  id = new_file_id [];
  file_type = file_type_unknown;
  size = 0;
  mod_time = 0;
  mode = 0;
}
