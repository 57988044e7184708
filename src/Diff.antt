-- ===== src/Diff.antt =====
-- internal/reconcile/reconcile.go: the semantic difference of two filesystem snapshots.
-- An `emit` callback is a step on the caller's state that may fail; `err` carries the error and
-- the state in which the walk stopped. Sizes, times and modes are only compared: an `int64` is a
-- number, its bit pattern.
pub mod Spec
pub mod Refines
pub mod Index
pub mod Replay
pub mod Moves
pub mod Patch
pub mod Owners
pub mod Healthy
use fsrecon.Prelude.{
  ℕ, ◌≡◌, Str, Map, Bool, true, false, not, ◌&&◌, ◌||◌, Option, none, some, List, [], ◌∷◌, ◌++◌,
  str_eq, get, put, remove, has, at_or, sorted_keys, ◌==◌, if◌then◌else◌, Result, ok, err, ◌>>=◌,
  final,
}

pub data FileType : Type 0 where
  type_unknown type_regular type_directory type_symlink type_other : FileType

-- The `uint8` behind a `FileType`.
abbrev pub type_code : FileType → ℕ
type_code type_unknown = 0
type_code type_regular = 1
type_code type_directory = 2
type_code type_symlink = 3
type_code type_other = 4

abbrev pub type_eq : FileType → FileType → Bool
type_eq a b = type_code a == type_code b

pub record State : Type 0 where
  pub path : Str
  pub id : Str
  pub file_type : FileType
  pub size : ℕ
  pub mod_unix : ℕ
  pub mode : ℕ

-- The zero value, which `m[k]` gives for a missing key.
abbrev pub zero_state : State
zero_state = record {
  path = [];
  id = [];
  file_type = type_unknown;
  size = 0;
  mod_unix = 0;
  mode = 0;
}

-- A nil pointer puts no constraint.
pub record Expected : Type 0 where
  pub path : Str
  pub file_type : Option FileType
  pub size : Option ℕ
  pub fingerprint : Str

abbrev pub zero_expected : Expected
zero_expected = record { path = []; file_type = none; size = none; fingerprint = [] }

pub data Kind : Type 0 where
  created modified deleted moved attribute_changed missing orphan replaced invalid : Kind

pub record Change : Type 0 where
  pub kind : Kind
  pub path : Str
  pub old_path : Str
  pub before : Option State
  pub after : Option State

abbrev pub change : Kind → Str → Str → Option State → Option State → Change
change k p o b a = record { kind = k; path = p; old_path = o; before = b; after = a }

unfoldable pub same_identity : State → State → Bool
same_identity a b = if str_eq a.id [] || str_eq b.id [] then true else str_eq a.id b.id

unfoldable pub content_changed : State → State → Bool
content_changed a b =
    not (type_eq a.file_type b.file_type)
    || not (a.size == b.size)
    || not (a.mod_unix == b.mod_unix)

-- The `switch` on a path that both snapshots hold: no case, no change.
unfoldable pub classify : State → State → Option Kind
unfolding same_identity content_changed
classify before after =
    if not (same_identity before after)
    then some replaced
    else if content_changed before after
    then some modified
    else if not (before.mode == after.mode)
    then some attribute_changed
    else none

-- The loop of `indexUniqueIDs`, with its two maps.
unfoldable pub index_ids : Map State → Map Str → Map (Unit {0}) → Map Str × Map (Unit {0})
index_ids [] result duplicates = (result, duplicates)
index_ids ((path, state) ∷ states) result duplicates =
    if str_eq state.id []
    then index_ids states result duplicates
    else if has result state.id
    then index_ids states result (put duplicates state.id tt)
    else index_ids states (put result state.id path) duplicates

unfoldable pub remove_all {ℓ κ} : {V : Type ℓ} {W : Type κ} → Map W → Map V → Map V
remove_all [] m = m
remove_all ((k, w) ∷ ks) m = remove_all ks (remove m k)

-- Path by identity, for the identities that one path alone has.
unfoldable pub index_unique_ids : Map State → Map Str
unfolding index_ids remove_all
index_unique_ids states =
    let (result, duplicates) = index_ids states [] [] in remove_all duplicates result

-- Is an unlisted entry free of the orphan test? A nil predicate makes all eligible.
abbrev pub eligible : Option (State → Bool) → State → Bool
eligible none s = true
eligible (some p) s = p s

-- `exp.Type != nil && state.Type != *exp.Type || exp.Size != nil && state.Size != *exp.Size`
unfoldable pub violates : Expected → State → Bool
violates e s =
    (elim e.file_type [ none ↦ false | some t ↦ not (type_eq s.file_type t) ])
    || (elim e.size [ none ↦ false | some n ↦ not (s.size == n) ])

-- The two working maps of the walk beside the caller's state.
pub record Walk {ℓ} (S : Type ℓ) : Type ℓ where
  pub remaining_previous : Map State
  pub remaining_actual : Map State
  pub sink : S

module _ {ℓ κ} {E : Type κ} {S : Type ℓ} where
  -- Go on with the caller's state; an error forgets the working maps.
  abbrev pub and_then : Result E (Walk S) → (Walk S → Result E S) → Result E S
  and_then (ok w) f = f w
  and_then (err e w) f = err e w.sink

  -- Delete both ends of a move from the working maps; this follows a successful emit.
  abbrev pub settle : Str → Str → Walk S → Result E (Walk S)
  settle old_path new_path w = ok (record w {
    remaining_previous = remove w.remaining_previous old_path;
    remaining_actual = remove w.remaining_actual new_path;
  })

module _ {ℓ κ} {E : Type κ} {S : Type ℓ} (emit : Change → S → Result E S) where
  abbrev pub emit_in : Change → Walk S → Result E (Walk S)
  emit_in c w = elim (emit c w.sink) [
    | ok s ↦ ok (record w { sink = s })
    | err e s ↦ err e (record w { sink = s })
  ]

  -- A path that both snapshots hold.
  unfoldable pub walk_pair : Str → State → State → Walk S → Result E (Walk S)
  walk_pair path before after w = elim (classify before after) [
    | none ↦ ok w
    | some k ↦ emit_in (change k path [] (some before) (some after)) w
  ]

  unfoldable pub walk_existing : Map State → Map State → List Str → Walk S → Result E (Walk S)
  walk_existing previous actual [] w = ok w
  walk_existing previous actual (path ∷ paths) w = elim (get previous path) [
    | none ↦ walk_existing previous actual paths w
    | some before ↦
        walk_pair path before (at_or zero_state actual path) (record w {
          remaining_previous = remove w.remaining_previous path;
          remaining_actual = remove w.remaining_actual path;
        })
        >>= walk_existing previous actual paths
  ]

  unfoldable pub walk_moves : Map Str → Map Str → List Str → Walk S → Result E (Walk S)
  walk_moves prev_ids actual_ids [] w = ok w
  walk_moves prev_ids actual_ids (id ∷ ids) w =
      elim (if str_eq id [] then none else get prev_ids id) [
        | none ↦ walk_moves prev_ids actual_ids ids w
        | some old_path ↦
            emit_in
              (change moved (at_or [] actual_ids id) old_path
                (some (at_or zero_state w.remaining_previous old_path))
                (some (at_or zero_state w.remaining_actual (at_or [] actual_ids id))))
              w
            >>= settle old_path (at_or [] actual_ids id)
            >>= walk_moves prev_ids actual_ids ids
      ]

  unfoldable pub walk_created : Map State → List Str → S → Result E S
  walk_created remaining [] s = ok s
  walk_created remaining (path ∷ paths) s =
      emit (change created path [] none (some (at_or zero_state remaining path))) s
      >>= walk_created remaining paths

  unfoldable pub walk_deleted : Map State → List Str → S → Result E S
  walk_deleted remaining [] s = ok s
  walk_deleted remaining (path ∷ paths) s =
      emit (change deleted path [] (some (at_or zero_state remaining path)) none) s
      >>= walk_deleted remaining paths

  unfoldable pub walk_expected : Map Expected → Map State → List Str → S → Result E S
  walk_expected expected actual [] s = ok s
  walk_expected expected actual (path ∷ paths) s = elim (get actual path) [
    | none ↦ emit (change missing path [] none none) s >>= walk_expected expected actual paths
    | some state ↦ elim (violates (at_or zero_expected expected path) state) [
      | true ↦
          emit (change invalid path [] none (some state)) s >>= walk_expected expected actual paths
      | false ↦ walk_expected expected actual paths s
    ]
  ]

  unfoldable pub walk_orphans :
      Option (State → Bool) → Map Expected → Map State → List Str → S → Result E S
  walk_orphans only expected actual [] s = ok s
  walk_orphans only expected actual (path ∷ paths) s =
      elim (eligible only (at_or zero_state actual path) && not (has expected path)) [
        | true ↦
            emit (change orphan path [] none (some (at_or zero_state actual path))) s
            >>= walk_orphans only expected actual paths
        | false ↦ walk_orphans only expected actual paths s
      ]

  abbrev pub walk_constraints :
      Option (Map Expected) → Option (State → Bool) → Map State → S → Result E S
  walk_constraints none only actual s = ok s
  walk_constraints (some expected) only actual s =
      walk_expected expected actual (sorted_keys expected) s
      >>= walk_orphans only expected actual (sorted_keys actual)

  -- The parts of the walk after the moves, on the caller's state alone.
  unfoldable pub walk_rest :
      Option (Map Expected) → Option (State → Bool) → Map State → Walk S → Result E S
  walk_rest expected only actual w =
      walk_created w.remaining_actual (sorted_keys w.remaining_actual) w.sink
      >>= walk_deleted w.remaining_previous (sorted_keys w.remaining_previous)
      >>= walk_constraints expected only actual

  -- `WalkDiffScoped`
  unfoldable pub walk_diff_scoped :
      Map State → Map State → Option (Map Expected) → Option (State → Bool) → S → Result E S
  walk_diff_scoped previous actual expected only s =
      and_then
        (walk_existing previous actual (sorted_keys actual)
            (record { remaining_previous = previous; remaining_actual = actual; sink = s })
          >>= λ w.
              let actual_ids = index_unique_ids w.remaining_actual in
              walk_moves (index_unique_ids w.remaining_previous) actual_ids (sorted_keys actual_ids)
                w)
        (walk_rest expected only actual)

  -- `WalkDiff`
  unfoldable pub walk_diff : Map State → Map State → Option (Map Expected) → S → Result E S
  unfolding walk_diff_scoped
  walk_diff previous actual expected s = walk_diff_scoped previous actual expected none s

-- The callback of `Diff` appends, and never fails.
abbrev pub collect : Change → List Change → Result ⊥ (List Change)
collect c changes = ok (changes ++ c ∷ [])

unfoldable pub diff : Map State → Map State → Option (Map Expected) → List Change
unfolding walk_diff
diff previous actual expected = final (walk_diff collect previous actual expected [])
