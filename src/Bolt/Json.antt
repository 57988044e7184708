-- ===== src/Bolt/Json.antt =====
-- Go's encoding/json on the documents that this program writes: a document is its tree of values.
-- A `time.Time` is written in RFC 3339 with its nanoseconds and a byte slice in base 64; both are
-- values of their own here.
use fsrecon.Prelude.{ℕ, ◌^◌, Str, Option, none, some, [], ◌∷◌, str_eq, ltb, if◌then◌else◌}
use fsrecon.Bolt.Utf8.{to_valid}

mutual
  pub data Json : Type 0 where
    null : Json
    text blob : Str → Json
    number instant : ℕ → Json
    object : Fields → Json

  pub data Fields : Type 0 where
    end : Fields
    field : Str → Json → Fields → Fields

-- A string as `json.Marshal` writes it.
abbrev pub string_value : Str → Json
string_value s = text (to_valid s)

-- A field with `omitempty`.
abbrev pub omit_empty : Str → Str → Fields → Fields
omit_empty k [] rest = rest
omit_empty k (c ∷ s) rest = field k (string_value (c ∷ s)) rest

abbrev pub omit_none : Str → Option Json → Fields → Fields
omit_none k none rest = rest
omit_none k (some v) rest = field k v rest

unfoldable pub lookup : Str → Fields → Option Json
lookup k end = none
lookup k (field j v rest) = if str_eq j k then some v else lookup k rest

-- `if err != nil { return err }` where a failure keeps nothing.
infixl 5 ◌>>◌
abbrev pub ◌>>◌ {ℓ κ} : {A : Type ℓ} {B : Type κ} → Option A → (A → Option B) → Option B
none >> f = none
some a >> f = f a

-- Into a `string`: a missing field and a null leave the zero value, another kind is an error.
abbrev pub as_string : Option Json → Option Str
as_string none = some []
as_string (some null) = some []
as_string (some (text s)) = some s
as_string (some v) = none

-- Into an unsigned integer, with the bound of its width.
abbrev pub as_number : ℕ → Option Json → Option ℕ
as_number bound none = some 0
as_number bound (some null) = some 0
as_number bound (some (number n)) = if ltb n bound then some n else none
as_number bound (some v) = none

abbrev pub as_instant : Option Json → Option ℕ
as_instant none = some 0
as_instant (some null) = some 0
as_instant (some (instant n)) = some n
as_instant (some v) = none

-- Into a pointer: nil where the field is missing or null.
abbrev pub as_pointer {ℓ} : {A : Type ℓ} → (Json → Option A) → Option Json → Option (Option A)
as_pointer f none = some none
as_pointer f (some null) = some none
as_pointer f (some v) = f v >> λ a. some (some a)

-- Into an `int64` or a byte slice behind a pointer, and into a slice, which is nil for a null.
abbrev pub as_size : Json → Option ℕ
as_size (number n) = if ltb n (2 ^ 64) then some n else none
as_size v = none

abbrev pub as_blob : Option Json → Option Str
as_blob none = some []
as_blob (some null) = some []
as_blob (some (blob s)) = some s
as_blob (some v) = none
