-- ===== src/Diff/Patch.antt =====
-- The changes of internal/reconcile/reconcile.go are complete and exact: replayed over the
-- previous snapshot they give the actual one.
use fsrecon.Prelude.{
  Str, Map, Bool, true, false, not, Option, none, some, List, IsMap, sorted_keys, is_some,
}
use fsrecon.Diff.{State, classify, index_unique_ids}
use fsrecon.Diff.Spec.{Rest, moves_between, only_in_actual, only_in_previous}
use fsrecon.Diff.Moves.{news, olds}

-- Nothing is left to report between two entries of one path: both are absent, or `classify`
-- finds no change.
abbrev pub agrees : Option State → Option State → Bool
agrees none none = true
agrees none (some b) = false
agrees (some a) none = false
agrees (some a) (some b) = not (is_some (classify a b))

module _ (previous actual : Map State) (im : IsMap actual) (ip : IsMap previous) (p : Str) where
  abbrev lost : Map State
  lost = only_in_previous previous actual

  abbrev found : Map State
  found = only_in_actual previous actual

  abbrev ids : List Str
  ids = sorted_keys (index_unique_ids found)

  abbrev new_paths : List Str
  new_paths = news (index_unique_ids lost) (index_unique_ids found) ids

  abbrev old_paths : List Str
  old_paths = olds (index_unique_ids lost) ids

  abbrev between : Rest
  between = moves_between lost found
