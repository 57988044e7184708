-- ===== src/Expected.antt =====
-- `loadExpectedScopes`, `expectedRootCanBeExpected` and `expectedPath` of reconcile.go: the
-- expected entries of the scopes, by path.
use fsrecon.Prelude.{
  ℕ, Bool, true, false, not, ◌&&◌, ◌||◌, Str, Map, Option, none, some, List, [], ◌∷◌, str_eq, put,
  ◌==◌, leb, if◌then◌else◌, Result, ok, err, ◌>>=◌,
}
use fsrecon.State.{
  zero_file_state, FileType, file_type_regular, file_type_directory, file_type_unknown,
  file_type_eq,
}
use fsrecon.FilePath.{clean, join_path, rel, is_abs, starts_with, dot_dot}
use fsrecon.Scopes.{covered}
use fsrecon.Scanner.{Stream}
use fsrecon.Config.{
  Config, Ports, ExpectedEntry, expected_regular_files, expected_all_entries, ExpectedProvider,
  stat_found, stat_missing, stat_failed,
}
use fsrecon.Convert.{internal_type_from_public}
use fsrecon.Diff

-- Bytes that are white space by themselves, and those of the other code points with the Unicode
-- property White_Space in UTF-8.
abbrev is_space_byte : ℕ → Bool
is_space_byte c = c == 32 || leb 9 c && leb c 13

abbrev is_space_pair : ℕ → ℕ → Bool
is_space_pair a b = a == 194 && (b == 133 || b == 160)

abbrev is_space_triple : ℕ → ℕ → ℕ → Bool
is_space_triple a b c =
    a == 225 && b == 154 && c == 128
    || a == 226 && b == 128 && (leb 128 c && leb c 138 || c == 168 || c == 169 || c == 175)
    || a == 226 && b == 129 && c == 159
    || a == 227 && b == 128 && c == 128

-- `strings.TrimSpace(s) == ""`
unfoldable pub is_blank : Str → Bool
is_blank [] = true
is_blank (a ∷ []) = is_space_byte a
is_blank (a ∷ b ∷ []) = (is_space_byte a && is_space_byte b) || is_space_pair a b
is_blank (a ∷ b ∷ c ∷ s) =
    (is_space_byte a && is_blank (b ∷ c ∷ s))
    || (is_space_pair a b && is_blank (c ∷ s))
    || (is_space_triple a b c && is_blank s)

pub data ExpectedError (E : Type 0) : Type 0 where
  empty_path : ExpectedError E
  outside_root : Str → ExpectedError E
  inspect_root : E → ExpectedError E
  walk_failed : E → ExpectedError E

abbrev up : Str
up = b'.' ∷ b'.' ∷ b'/' ∷ []

-- Is a path outside of the root, by its relative path?
abbrev pub is_outside : Option Str → Bool
is_outside none = true
is_outside (some r) = str_eq r dot_dot || starts_with r up

abbrev pub absolute : Str → Str → Str
absolute root path = clean (if is_abs path then path else join_path root path)

-- `expectedPath`, without the text of its errors: `none` for an empty path.
unfoldable pub expected_path : {E : Type 0} → Str → Str → Result (ExpectedError E) Str
expected_path root path =
    if is_blank path
    then err empty_path []
    else if is_outside (rel root (absolute root path))
    then err (outside_root (absolute root path)) []
    else ok (absolute root path)

module _ {W E : Type 0} (config : Config W E) where
  abbrev pub implied_type : Option FileType → Option FileType
  implied_type (some t) = some t
  implied_type none = elim config.expected_scope [
    | expected_regular_files ↦ some file_type_regular
    | expected_all_entries ↦ none
  ]

  abbrev pub type_or_unknown : Option FileType → FileType
  type_or_unknown none = file_type_unknown
  type_or_unknown (some t) = t

  -- Does the filter of the configuration take the entry?
  unfoldable pub passes_filter : Str → ExpectedEntry → Bool
  passes_filter path entry = elim config.filter [
    | none ↦ true
    | some f ↦ f path (record zero_file_state {
      path = path;
      file_type = type_or_unknown (implied_type entry.file_type);
    })
  ]

  unfoldable pub in_scope : Bool → List Str → Str → ExpectedEntry → Bool
  in_scope root_allowed scopes path entry =
      if str_eq path config.root
      then (elim entry.file_type [ none ↦ root_allowed | some t ↦ true ])
      else covered path scopes

  abbrev pub internal_type : Option FileType → Option Diff.FileType
  internal_type none = none
  internal_type (some t) = some (internal_type_from_public t)

  abbrev pub internal_expected : Str → ExpectedEntry → Diff.Expected
  internal_expected path entry = record {
    path = path;
    file_type = internal_type (implied_type entry.file_type);
    size = entry.size;
    fingerprint = entry.fingerprint;
  }

  abbrev pub keep_expected :
      Bool → List Str → ExpectedEntry → Str → Map Diff.Expected → Map Diff.Expected
  keep_expected root_allowed scopes entry path m =
      if passes_filter path entry && in_scope root_allowed scopes path entry
      then put m path (internal_expected path entry)
      else m

  -- The callback `consume`.
  unfoldable pub consume :
      Bool
      → List Str
      → ExpectedEntry
      → Map Diff.Expected
      → Result (ExpectedError E) (Map Diff.Expected)
  unfolding passes_filter in_scope
  consume root_allowed scopes entry m = elim (expected_path {E = E} config.root entry.path) [
    | err e p ↦ err e m
    | ok path ↦ ok (keep_expected root_allowed scopes entry path m)
  ]

  -- A provider's walk: the entries in turn, then its own error.
  unfoldable pub consume_all :
      Bool
      → List Str
      → List ExpectedEntry
      → Option E
      → Map Diff.Expected
      → Result (ExpectedError E) (Map Diff.Expected)
  unfolding consume
  consume_all root_allowed scopes [] none m = ok m
  consume_all root_allowed scopes [] (some e) m = err (walk_failed e) m
  consume_all root_allowed scopes (entry ∷ entries) fault m =
      consume root_allowed scopes entry m >>= consume_all root_allowed scopes entries fault

  abbrev pub consume_stream :
      Bool
      → List Str
      → Stream E ExpectedEntry
      → Map Diff.Expected
      → Result (ExpectedError E) (Map Diff.Expected)
  consume_stream root_allowed scopes s = consume_all root_allowed scopes s.items s.fault

  unfoldable pub walk_scopes :
      (Str → Stream E ExpectedEntry)
      → Bool
      → List Str
      → List Str
      → Map Diff.Expected
      → Result (ExpectedError E) (Map Diff.Expected)
  walk_scopes walk root_allowed scopes [] m = ok m
  walk_scopes walk root_allowed scopes (scope ∷ rest) m =
      consume_stream root_allowed scopes (walk scope) m
      >>= walk_scopes walk root_allowed scopes rest

module _ {W E : Type 0} (config : Config W E) (ports : Ports W E) where
  unfoldable pub root_can_be_expected : W → Result E Bool
  root_can_be_expected w = elim (ports.lstat config.root w) [
    | stat_found d ↦ ok (not d)
    | stat_failed e ↦ err e false
    | stat_missing ↦ elim (ports.get_snapshot config.root w) [
      | err e s ↦ err e false
      | ok none ↦ ok true
      | ok (some s) ↦ ok (not (file_type_eq s.file_type file_type_directory))
    ]
  ]

  abbrev pub walk_provider :
      ExpectedProvider W E → Bool → List Str → W → Result (ExpectedError E) (Map Diff.Expected)
  walk_provider provider root_allowed scopes w = elim provider.walk_expected_scope [
    | none ↦
        consume_stream config root_allowed scopes (provider.walk_expected_entries config.root w) []
    | some walk ↦
        walk_scopes config (λ scope. walk config.root scope w) root_allowed scopes scopes []
  ]

  -- A nil map where nothing is expected.
  unfoldable pub load_expected_scopes :
      List Str → W → Result (ExpectedError E) (Option (Map Diff.Expected))
  unfolding walk_scopes consume_all root_can_be_expected
  load_expected_scopes scopes w = elim config.expected [
    | none ↦ ok none
    | some provider ↦ elim (root_can_be_expected w) [
      | err e b ↦ err (inspect_root e) none
      | ok root_allowed ↦ elim (walk_provider provider root_allowed scopes w) [
        | err e m ↦ err e none
        | ok m ↦ ok (some m)
      ]
    ]
  ]
