-- ===== src/FilePath.antt =====
-- Go's path/filepath on Unix, as far as the program uses it, and `pathHasPrefix` of store.go.
-- A path is a string of bytes; the separator is '/', and there are no volume names.
pub mod Prefix
pub mod Clean
use fsrecon.Prelude.{
  ℕ, suc, zero, Bool, true, false, not, ◌&&◌, ◌||◌, Str, Option, none, some, List, [], ◌∷◌, ◌++◌,
  str_eq, length, get_elem?, ltb, ◌==◌, if◌then◌else◌, keep,
}
use mathlib.Core.List.{reverse}

abbrev pub is_separator : ℕ → Bool
is_separator c = c == b'/'

-- `strings.Split(s, "/")`
abbrev pub cons_first : ℕ → List Str → List Str
cons_first c [] = (c ∷ []) ∷ []
cons_first c (s ∷ ss) = (c ∷ s) ∷ ss

unfoldable pub split : Str → List Str
split [] = [] ∷ []
split (c ∷ s) = let rest = split s in if is_separator c then [] ∷ rest else cons_first c rest

unfoldable pub join_parts : List Str → Str
join_parts [] = []
join_parts (s ∷ []) = s
join_parts (s ∷ t ∷ ss) = s ++ b'/' ∷ join_parts (t ∷ ss)

abbrev pub is_abs : Str → Bool
is_abs [] = false
is_abs (c ∷ s) = is_separator c

abbrev pub dot : Str
dot = b'.' ∷ []

abbrev pub dot_dot : Str
dot_dot = b'.' ∷ b'.' ∷ []

-- One element of a path against those before it, the nearest first.
abbrev pub resolve_part : Bool → List Str → Str → List Str
resolve_part rooted [] s =
    if str_eq s [] || str_eq s dot then [] else if str_eq s dot_dot && rooted then [] else s ∷ []
resolve_part rooted (top ∷ stack) s =
    if str_eq s [] || str_eq s dot
    then top ∷ stack
    else if str_eq s dot_dot && not (str_eq top dot_dot)
    then stack
    else s ∷ top ∷ stack

unfoldable pub resolve : Bool → List Str → List Str → List Str
resolve rooted stack [] = reverse stack
resolve rooted stack (s ∷ ss) = resolve rooted (resolve_part rooted stack s) ss

-- The elements of `Clean(path)`.
unfoldable pub clean_parts : Str → List Str
unfolding resolve split
clean_parts path = resolve (is_abs path) [] (split path)

abbrev pub bool_eq : Bool → Bool → Bool
bool_eq true b = b
bool_eq false b = not b

abbrev pub or_dot : Str → Str
or_dot [] = dot
or_dot (c ∷ s) = c ∷ s

-- The text of a cleaned path from its elements.
unfoldable pub render : Bool → List Str → Str
unfolding join_parts
render rooted parts = if rooted then b'/' ∷ join_parts parts else or_dot (join_parts parts)

unfoldable pub clean : Str → Str
unfolding clean_parts render
clean path = render (is_abs path) (clean_parts path)

-- One ".." for each element that is left of the base.
climb : List Str → List Str → List Str
climb [] target = target
climb (b ∷ bs) target = dot_dot ∷ climb bs target

-- The way from one list of elements to another; `none` where a ".." of the base hides it.
unfoldable pub rel_parts : List Str → List Str → Option (List Str)
unfolding climb
rel_parts [] target = some target
rel_parts (b ∷ bs) [] = if str_eq b dot_dot then none else some (climb (b ∷ bs) [])
rel_parts (b ∷ bs) (t ∷ ts) =
    if str_eq b t
    then rel_parts bs ts
    else if str_eq b dot_dot
    then none
    else some (climb (b ∷ bs) (t ∷ ts))

-- `filepath.Rel`; `none` is its error.
unfoldable pub rel : Str → Str → Option Str
unfolding rel_parts clean_parts join_parts
rel base target =
    if bool_eq (is_abs base) (is_abs target)
    then (elim (rel_parts (clean_parts base) (clean_parts target)) [
      | none ↦ none
      | some parts ↦ some (or_dot (join_parts parts))
    ])
    else none

-- `strings.HasPrefix`
unfoldable pub starts_with : Str → Str → Bool
starts_with s [] = true
starts_with [] (c ∷ p) = false
starts_with (d ∷ s) (c ∷ p) = if d == c then starts_with s p else false

-- `strings.HasSuffix` by a slash or by a backslash (92).
abbrev pub is_slash : ℕ → Bool
is_slash c = c == b'/' || c == 92

unfoldable pub ends_slash : Str → Bool
ends_slash [] = false
ends_slash (c ∷ []) = is_slash c
ends_slash (c ∷ d ∷ s) = ends_slash (d ∷ s)

abbrev pub slash_at : Str → ℕ → Bool
slash_at s i = elim (get_elem? s i) [ none ↦ false | some c ↦ is_slash c ]

-- `pathHasPrefix` of store.go
unfoldable pub path_has_prefix : Str → Str → Bool
path_has_prefix path prefix =
    if str_eq prefix [] || str_eq path prefix
    then true
    else if not (starts_with path prefix)
    then false
    else ends_slash prefix || (ltb (length prefix) (length path) && slash_at path (length prefix))

-- `within` of internal/normalize, internal/dirtyset and internal/watchtree: the relative path
-- does not lead up. The length test is `len(relative) > 3`.
unfoldable pub within : Str → Str → Bool
within root path = elim (rel root path) [
  | none ↦ false
  | some relative ↦
      not (str_eq relative dot_dot)
      && not (ltb 3 (length relative) && starts_with relative (b'.' ∷ b'.' ∷ b'/' ∷ []))
]

-- `filepath.Join(path, name)`, for a path that is not empty.
unfoldable pub join_path : Str → Str → Str
unfolding clean
join_path path name = clean (path ++ b'/' ∷ name)
