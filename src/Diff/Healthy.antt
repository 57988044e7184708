-- ===== src/Diff/Healthy.antt =====
-- internal/reconcile/reconcile.go: how many entries of a scan are reported as created, modified or
-- replaced, which is what reconcile.go subtracts from all of them.
use fsrecon.Prelude.{
  ℕ, suc, ◌+◌, ◌≤◌, ◌≡◌, refl, ◌∙◌, sym, Bool, true, false, Str, Map, Option, none, some, List, [],
  ◌∷◌, ◌++◌, arith, str_eq_iff, get, has, at_or, remove, get-remove, keys, sort, sorted_keys, elem,
  elem-sort, elem-keys, length, length-sort, length-keys, IsMap, IsDistinct, sort-IsDistinct,
  keys-IsDistinct, if◌then◌else◌, Option-cases, Bool-cases, inl, inr,
}
use fsrecon.Diff.{
  State, zero_state, Expected, Change, Kind, created, modified, attribute_changed, replaced,
  classify, index_unique_ids,
}
use fsrecon.Diff.Spec.{
  pair_changes, existing_changes, unmatched, moves, move_change, old_path_of, moves_between,
  created_changes, deleted_changes, expected_change, expected_changes, is_orphan, orphan_changes,
  constraint_changes, only_in_previous, only_in_actual, all_changes,
}

-- Does a kind of change take its entry out of the healthy ones?
abbrev pub touches : Kind → Bool
touches created = true
touches modified = true
touches attribute_changed = true
touches replaced = true
touches k = false

unfoldable pub touched : List Change → ℕ
touched [] = 0
touched (c ∷ cs) = let n = touched cs in if touches c.kind then suc n else n

pub touched-append : (xs ys : List Change) → touched (xs ++ ys) ≡ touched xs + touched ys
unfolding touched
touched-append [] ys = omega arith
touched-append (x ∷ xs) ys = ground (arith, touched-append xs ys)

length-remove-le : {V : Type 0} (m : Map V) (k : Str) → length (remove m k) ≤ length m
unfolding remove
length-remove-le [] k = omega arith
length-remove-le ((j, v) ∷ m) k = ground (arith, length-remove-le m k)

length-remove :
    {V : Type 0} (m : Map V) (k : Str) → has m k ≡ true → suc (length (remove m k)) ≤ length m
unfolding remove get
length-remove [] k h = absurd (ground arith)
length-remove ((j, v) ∷ m) k h = ground (arith, length-remove m k, length-remove-le m k)

touched-pair : (path : Str) (before after : State) → touched (pair_changes path before after) ≤ 1
unfolding touched classify
touched-pair path before after = ground arith

-- All paths are keys.
abbrev AreKeys : {V : Type 0} → List Str → Map V → Type 0
AreKeys [] m = Unit {0}
AreKeys (p ∷ ps) m = (has m p ≡ true) × AreKeys ps m

AreKeys-remove :
    {V : Type 0} (ps : List Str) (m : Map V) (k : Str)
    → elem k ps ≡ false
    → AreKeys ps m
    → AreKeys ps (remove m k)
unfolding elem
AreKeys-remove [] m k h a = tt
AreKeys-remove (p ∷ ps) m k h a = (
  ground (arith, get-remove m k p, str_eq_iff p k, str_eq_iff k p, a.0),
  AreKeys-remove ps m k (ground arith) a.1,
)

-- Each path that both snapshots hold gives at most one change, and is matched.
touched-existing :
    (previous actual m : Map State) (paths : List Str)
    → IsDistinct paths
    → AreKeys paths m
    → touched (existing_changes previous actual paths) + length (unmatched previous paths m)
      ≤ length m
unfolding existing_changes unmatched touched
touched-existing previous actual m [] d a = omega arith
touched-existing previous actual m (p ∷ ps) d a = elim (Option-cases (get previous p)) [
  | inl e ↦ rw (e, existing_changes, unmatched) (touched-existing previous actual m ps d.1 a.1)
  | inr (before, e) ↦
      let after = at_or zero_state actual p in
      rw (e, existing_changes, unmatched)
        (omega (
          arith,
          touched-append (pair_changes p before after) (existing_changes previous actual ps),
          touched-pair p before after,
          length-remove m p a.0,
          touched-existing previous actual (remove m p) ps d.1 (AreKeys-remove ps m p d.0 a.1),
        ))
]

touched-moves :
    (prev_ids actual_ids : Map Str) (ids : List Str) (previous actual : Map State)
    → let r = moves prev_ids actual_ids ids previous actual in
      (touched r.changes ≡ 0) × (length r.actual ≤ length actual)
unfolding moves move_change touched
touched-moves prev_ids actual_ids [] previous actual = (refl, omega arith)
touched-moves prev_ids actual_ids (id ∷ ids) previous actual =
    elim (Option-cases (old_path_of prev_ids id)) [
      | inl e ↦ rw (e, moves) (touched-moves prev_ids actual_ids ids previous actual)
      | inr (old_path, e) ↦
          let new_path = at_or [] actual_ids id in
          let (t, l) =
            touched-moves prev_ids actual_ids ids (remove previous old_path)
              (remove actual new_path) in
          rw (e, moves) (t, omega (arith, length-remove-le actual new_path))
    ]

touched-created :
    (m : Map State) (paths : List Str) → touched (created_changes m paths) ≡ length paths
unfolding created_changes touched
touched-created m [] = refl
touched-created m (p ∷ ps) = omega (arith, touched-created m ps)

touched-deleted : (m : Map State) (paths : List Str) → touched (deleted_changes m paths) ≡ 0
unfolding deleted_changes touched
touched-deleted m [] = refl
touched-deleted m (p ∷ ps) = touched-deleted m ps

touched-expected_change :
    (expected : Map Expected) (actual : Map State) (p : Str)
    → touched (expected_change expected actual p) ≡ 0
unfolding touched
touched-expected_change expected actual p = ground arith

touched-expected :
    (expected : Map Expected) (actual : Map State) (paths : List Str)
    → touched (expected_changes expected actual paths) ≡ 0
unfolding expected_changes touched
touched-expected expected actual [] = refl
touched-expected expected actual (p ∷ ps) = omega (
  arith,
  touched-append (expected_change expected actual p) (expected_changes expected actual ps),
  touched-expected_change expected actual p,
  touched-expected expected actual ps,
)

touched-orphans :
    (only : Option (State → Bool)) (expected : Map Expected) (actual : Map State) (paths : List Str)
    → touched (orphan_changes only expected actual paths) ≡ 0
unfolding orphan_changes touched
touched-orphans only expected actual [] = refl
touched-orphans only expected actual (p ∷ ps) =
    elim (Bool-cases (is_orphan only expected actual p)) [
      | inl e ↦ rw (e, orphan_changes) (touched-orphans only expected actual ps)
      | inr e ↦ rw (e, orphan_changes) (touched-orphans only expected actual ps)
    ]

touched-constraints :
    (expected : Option (Map Expected)) (only : Option (State → Bool)) (actual : Map State)
    → touched (constraint_changes expected only actual) ≡ 0
unfolding constraint_changes touched
touched-constraints none only actual = refl
touched-constraints (some expected) only actual = omega (
  arith,
  touched-append (expected_changes expected actual (sorted_keys expected))
      (orphan_changes only expected actual (sorted_keys actual)),
  touched-expected expected actual (sorted_keys expected),
  touched-orphans only expected actual (sorted_keys actual),
)

all_keys :
    {V : Type 0} (m : Map V) (ps : List Str)
    → ((p : Str) → elem p ps ≡ true → has m p ≡ true)
    → AreKeys ps m
unfolding elem
all_keys m [] h = tt
all_keys m (p ∷ ps) h =
    (h p (ground (arith, str_eq_iff p p)), all_keys m ps (λ q e. h q (ground arith)))

touched-matched :
    (previous actual : Map State)
    → IsMap actual
    → touched (existing_changes previous actual (sorted_keys actual))
        + length (only_in_actual previous actual)
      ≤ length actual
unfolding only_in_actual sorted_keys
touched-matched previous actual h =
    touched-existing previous actual actual (sort (keys actual))
      (sort-IsDistinct (keys actual) (keys-IsDistinct actual h))
      (all_keys actual (sort (keys actual))
        (λ p e. sym (elem-sort p (keys actual) ∙ elem-keys actual p) ∙ e))

touched-between :
    (previous actual : Map State)
    → (touched (moves_between previous actual).changes ≡ 0)
      × (length (moves_between previous actual).actual ≤ length actual)
unfolding moves_between
touched-between previous actual =
    let actual_ids = index_unique_ids actual in
    touched-moves (index_unique_ids previous) actual_ids (sorted_keys actual_ids) previous actual

length-sorted_keys : {V : Type 0} (m : Map V) → length (sorted_keys m) ≡ length m
unfolding sorted_keys
length-sorted_keys m = length-sort (keys m) ∙ length-keys m

-- No more changes count as created, modified (in content or attributes) or replaced than the scan
-- has entries.
pub touched-all_changes :
    (previous actual : Map State) (expected : Option (Map Expected)) (only : Option (State → Bool))
    → IsMap actual
    → touched (all_changes previous actual expected only) ≤ length actual
unfolding all_changes
touched-all_changes previous actual expected only h =
    let lost = only_in_previous previous actual in
    let found = only_in_actual previous actual in
    let r = moves_between lost found in
    let made = created_changes r.actual (sorted_keys r.actual) in
    let dropped = deleted_changes r.previous (sorted_keys r.previous) in
    let rest = constraint_changes expected only actual in
    let (none_moved, left) = touched-between lost found in
    omega (
      arith,
      touched-append (existing_changes previous actual (sorted_keys actual))
          (r.changes ++ (made ++ (dropped ++ rest))),
      touched-append r.changes (made ++ (dropped ++ rest)),
      touched-append made (dropped ++ rest),
      touched-append dropped rest,
      touched-matched previous actual h,
      touched-created r.actual (sorted_keys r.actual),
      length-sorted_keys r.actual,
      touched-deleted r.previous (sorted_keys r.previous),
      touched-constraints expected only actual,
    )
