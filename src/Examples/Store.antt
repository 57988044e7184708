-- ===== src/Examples/Store.antt =====
-- store.go: a small session, and the collapsing of scopes in reconcile.go.
use fsrecon.Prelude.{
  ◌≡◌, refl, Str, some, bytes, true, false, List, [], ◌∷◌, has, elem, IsSorted, IsDistinct, str_eq,
  ◌&&◌,
}
use fsrecon.State.{FileState, zero_file_state, FileId, new_file_id, marshal_text, unmarshal_text}
use fsrecon.FilePath.{
  clean, clean_parts, resolve, split, render, join_parts, path_has_prefix, starts_with, ends_slash,
}
use fsrecon.Store.{new_memory_store, scope_paths}
use fsrecon.Store.Paths.{path_parts}
use fsrecon.Store.Contract.{begins, IsClean}
use fsrecon.Store.Sessions.{Call, puts, applies, run, run-scope_paths}
use fsrecon.Scopes.{collapse_scopes, covered}
use fsrecon.Scopes.Minimal.{IsAntichain, requested_as, collapse_scopes_minimal}

abbrev at : Str → FileState
at path = record zero_file_state { path = path }

abbrev session : List Call
session =
    puts false (at (bytes "/d/x"))
    ∷ applies false (at (bytes "/d/y/z") ∷ at (bytes "/e") ∷ []) (bytes "/d/x" ∷ [])
    ∷ puts true (at (bytes "/d/q"))
    ∷ []

run-scope_paths_example :
    let s = run session new_memory_store in
    IsSorted (scope_paths (bytes "/d") s)
    × IsDistinct (scope_paths (bytes "/d") s)
    × ((p : Str)
        → elem p (scope_paths (bytes "/d") s)
          ≡ has s.entries p && begins (path_parts (bytes "/d")) (path_parts p))
run-scope_paths_example =
    run-scope_paths session (bytes "/d")
      (clean_x, (((clean_yz, (clean_e, tt)), (clean_x, tt)), (clean_q, tt)))
  where
    clean_x : IsClean (bytes "/d/x")
    clean_x = unfold clean clean_parts resolve split render join_parts str_eq in refl

    clean_yz : IsClean (bytes "/d/y/z")
    clean_yz = unfold clean clean_parts resolve split render join_parts str_eq in refl

    clean_e : IsClean (bytes "/e")
    clean_e = unfold clean clean_parts resolve split render join_parts str_eq in refl

    clean_q : IsClean (bytes "/d/q")
    clean_q = unfold clean clean_parts resolve split render join_parts str_eq in refl

abbrev requests : List Str
requests = bytes "/r/a/b" ∷ bytes "/r/c" ∷ bytes "/r/a" ∷ bytes "/r/c/d" ∷ []

collapsed : collapse_scopes (bytes "/r") requests ≡ bytes "/r/c" ∷ bytes "/r/a" ∷ []
unfolding collapse_scopes clean clean_parts resolve split render join_parts str_eq path_has_prefix
    starts_with ends_slash covered
collapsed = refl

collapse_scopes_minimal_example :
    let scopes = collapse_scopes (bytes "/r") requests in
    IsAntichain scopes
    × ((q : Str) → elem q scopes ≡ true → requested_as (bytes "/r") q requests ≡ true)
    × ((q : Str) → requested_as (bytes "/r") q requests ≡ true → covered q scopes ≡ true)
collapse_scopes_minimal_example = collapse_scopes_minimal (bytes "/r") requests

text_read : (id : FileId) → unmarshal_text (some (new_file_id [])) (marshal_text id) ≡ some id
text_read id = refl
