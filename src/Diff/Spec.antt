-- ===== src/Diff/Spec.antt =====
-- The changes of a walk as plain lists, one function for each of its loops: what
-- internal/reconcile/reconcile.go computes, without a callback and without errors.
use fsrecon.Prelude.{
  Str, Map, Bool, true, false, not, ◌&&◌, Option, none, some, List, [], ◌∷◌, ◌++◌, str_eq, get,
  remove, has, at_or, sorted_keys, if◌then◌else◌,
}
use fsrecon.Diff.{
  State, zero_state, Expected, zero_expected, Change, change, created, deleted, moved, missing,
  orphan, invalid, classify, index_unique_ids, eligible, violates,
}

abbrev pub pair_changes : Str → State → State → List Change
pair_changes path before after = elim (classify before after) [
  | none ↦ []
  | some k ↦ change k path [] (some before) (some after) ∷ []
]

unfoldable pub existing_changes : Map State → Map State → List Str → List Change
existing_changes previous actual [] = []
existing_changes previous actual (path ∷ paths) =
    let rest = existing_changes previous actual paths in
    elim (get previous path) [
      | none ↦ rest
      | some before ↦ pair_changes path before (at_or zero_state actual path) ++ rest
    ]

-- What is left of a working map when the paths that `previous` holds are gone.
unfoldable pub unmatched : Map State → List Str → Map State → Map State
unmatched previous [] m = m
unmatched previous (path ∷ paths) m =
    unmatched previous paths (elim (get previous path) [ none ↦ m | some b ↦ remove m path ])

pub record Rest : Type 0 where
  pub changes : List Change
  pub previous : Map State
  pub actual : Map State

unfoldable pub move_change : Map Str → Str → Str → Map State → Map State → Change
move_change actual_ids id old_path previous actual =
    change moved (at_or [] actual_ids id) old_path (some (at_or zero_state previous old_path))
      (some (at_or zero_state actual (at_or [] actual_ids id)))

-- The identity's old path, if the identity counts.
abbrev pub old_path_of : Map Str → Str → Option Str
old_path_of prev_ids id = if str_eq id [] then none else get prev_ids id

-- The moves, and the working maps that they leave.
unfoldable pub moves : Map Str → Map Str → List Str → Map State → Map State → Rest
moves prev_ids actual_ids [] previous actual = record {
  changes = [];
  previous = previous;
  actual = actual;
}
moves prev_ids actual_ids (id ∷ ids) previous actual = elim (old_path_of prev_ids id) [
  | none ↦ moves prev_ids actual_ids ids previous actual
  | some old_path ↦
      let r =
        moves prev_ids actual_ids ids (remove previous old_path)
          (remove actual (at_or [] actual_ids id)) in
      record r { changes = move_change actual_ids id old_path previous actual ∷ r.changes }
]

unfoldable pub created_changes : Map State → List Str → List Change
created_changes remaining [] = []
created_changes remaining (path ∷ paths) =
    change created path [] none (some (at_or zero_state remaining path))
    ∷ created_changes remaining paths

unfoldable pub deleted_changes : Map State → List Str → List Change
deleted_changes remaining [] = []
deleted_changes remaining (path ∷ paths) =
    change deleted path [] (some (at_or zero_state remaining path)) none
    ∷ deleted_changes remaining paths

abbrev pub expected_change : Map Expected → Map State → Str → List Change
expected_change expected actual path = elim (get actual path) [
  | none ↦ change missing path [] none none ∷ []
  | some state ↦ elim (violates (at_or zero_expected expected path) state) [
    | true ↦ change invalid path [] none (some state) ∷ []
    | false ↦ []
  ]
]

unfoldable pub expected_changes : Map Expected → Map State → List Str → List Change
expected_changes expected actual [] = []
expected_changes expected actual (path ∷ paths) =
    expected_change expected actual path ++ expected_changes expected actual paths

abbrev pub is_orphan : Option (State → Bool) → Map Expected → Map State → Str → Bool
is_orphan only expected actual path =
    eligible only (at_or zero_state actual path) && not (has expected path)

unfoldable pub orphan_changes :
    Option (State → Bool) → Map Expected → Map State → List Str → List Change
orphan_changes only expected actual [] = []
orphan_changes only expected actual (path ∷ paths) =
    let rest = orphan_changes only expected actual paths in
    elim (is_orphan only expected actual path) [
      | true ↦ change orphan path [] none (some (at_or zero_state actual path)) ∷ rest
      | false ↦ rest
    ]

unfoldable pub constraint_changes :
    Option (Map Expected) → Option (State → Bool) → Map State → List Change
constraint_changes none only actual = []
constraint_changes (some expected) only actual =
    expected_changes expected actual (sorted_keys expected)
    ++ orphan_changes only expected actual (sorted_keys actual)

-- The moves between the paths that only one snapshot has.
unfoldable pub moves_between : Map State → Map State → Rest
moves_between previous actual =
    let actual_ids = index_unique_ids actual in
    moves (index_unique_ids previous) actual_ids (sorted_keys actual_ids) previous actual

unfoldable pub only_in_previous : Map State → Map State → Map State
only_in_previous previous actual = unmatched previous (sorted_keys actual) previous

unfoldable pub only_in_actual : Map State → Map State → Map State
only_in_actual previous actual = unmatched previous (sorted_keys actual) actual

-- All changes of a walk, in its order.
unfoldable pub all_changes :
    Map State → Map State → Option (Map Expected) → Option (State → Bool) → List Change
all_changes previous actual expected only =
    let r = moves_between (only_in_previous previous actual) (only_in_actual previous actual) in
    existing_changes previous actual (sorted_keys actual)
    ++ (r.changes
        ++ (created_changes r.actual (sorted_keys r.actual)
            ++ (deleted_changes r.previous (sorted_keys r.previous)
                ++ constraint_changes expected only actual)))
