-- ===== src/Scopes.antt =====
-- `collapseScopes` of reconcile.go: the requested directories, without those that others cover.
pub mod Minimal
use fsrecon.Prelude.{Bool, true, false, not, Str, List, [], ◌∷◌, ◌++◌, keep, if◌then◌else◌}
use fsrecon.FilePath.{clean, path_has_prefix}

-- Does one of the scopes cover the path?
unfoldable pub covered : Str → List Str → Bool
covered path [] = false
covered path (existing ∷ paths) = if path_has_prefix path existing then true else covered path paths

-- A requested path, cleaned, or the root if it lies outside.
unfoldable pub clip : Str → Str → Str
clip root path = if path_has_prefix (clean path) root then clean path else root

unfoldable pub add_scope : Str → List Str → List Str
add_scope path paths =
    if covered path paths
    then paths
    else keep (λ existing. not (path_has_prefix existing path)) paths ++ path ∷ []

unfoldable pub collapse_onto : Str → List Str → List Str → List Str
unfolding add_scope clip
collapse_onto root paths [] = paths
collapse_onto root paths (path ∷ requested) =
    collapse_onto root (add_scope (clip root path) paths) requested

unfoldable pub collapse_scopes : Str → List Str → List Str
unfolding collapse_onto
collapse_scopes root requested = collapse_onto root [] requested
