-- ===== src/Diff/Refines.antt =====
-- A walk feeds the changes of `all_changes` to its callback one by one, and stops at the first
-- error; `Diff` returns them all.
use mathlib.Core.Path.{fun_ext}
use fsrecon.Prelude.{
  Result, ok, err, ◌>>=◌, final, Result-cases, bind_assoc, ◌≡◌, refl, ap, sym, ◌∙◌, Str, Map, Bool,
  Option, none, some, List, [], ◌∷◌, ◌++◌, append_assoc, append-nil, arith, inl, inr, Option-cases,
  Bool-cases, get, remove, at_or, sorted_keys,
}
use fsrecon.Diff.{
  State, zero_state, Expected, zero_expected, Change, change, created, deleted, missing, invalid,
  orphan, Walk, violates, and_then, walk_existing, walk_pair, walk_moves, walk_created,
  walk_deleted, walk_expected, walk_orphans, walk_rest, walk_constraints, walk_diff_scoped,
  walk_diff, collect, diff, index_unique_ids,
}
use fsrecon.Diff.Spec.{
  existing_changes, pair_changes, unmatched, moves, move_change, old_path_of, created_changes,
  deleted_changes, expected_change, expected_changes, is_orphan, orphan_changes, constraint_changes,
  moves_between, only_in_previous, only_in_actual, all_changes,
}

module _ {ℓ κ} {E : Type κ} {S : Type ℓ} (emit : Change → S → Result E S) where
  -- Hand changes to a callback one by one, up to the first error.
  unfoldable pub feed : List Change → S → Result E S
  feed [] s = ok s
  feed (c ∷ cs) s = emit c s >>= feed cs

  feed-append : (xs ys : List Change) (s : S) → feed (xs ++ ys) s ≡ (feed xs s >>= feed ys)
  unfolding feed
  feed-append [] ys s = refl
  feed-append (c ∷ xs) ys s = elim (Result-cases (emit c s)) [
    | inl (t, e) ↦ rw e (feed-append xs ys t)
    | inr (x, t, e) ↦ rw e refl
  ]

  and_then-bind :
      (m : Result E (Walk S)) (f : Walk S → Result E (Walk S)) (k : Walk S → Result E S)
      → and_then (m >>= f) k ≡ and_then m (λ w. and_then (f w) k)
  and_then-bind (ok w) f k = refl
  and_then-bind (err e w) f k = refl

  feed-append-bind :
      (xs ys : List Change) (s : S) (g : S → Result E S)
      → (feed (xs ++ ys) s >>= g) ≡ (feed xs s >>= λ t. feed ys t >>= g)
  feed-append-bind xs ys s g = rw feed-append (bind_assoc (feed xs s) (feed ys) g)

  walk_pair-feed :
      (path : Str) (before after : State) (w : Walk S) (k : Walk S → Result E S)
      → and_then (walk_pair emit path before after w) k
        ≡ (feed (pair_changes path before after) w.sink >>= λ s. k (record w { sink = s }))
  unfolding walk_pair feed
  walk_pair-feed path before after w k = ground arith

  walk_existing-feed :
      (previous actual : Map State) (paths : List Str) (w : Walk S) (k : Walk S → Result E S)
      → and_then (walk_existing emit previous actual paths w) k ≡ (
          feed (existing_changes previous actual paths) w.sink >>= λ s. k (record {
            remaining_previous = unmatched previous paths w.remaining_previous;
            remaining_actual = unmatched previous paths w.remaining_actual;
            sink = s;
          }))
  unfolding walk_existing existing_changes unmatched feed
  walk_existing-feed previous actual [] w k = refl
  walk_existing-feed previous actual (p ∷ ps) w k = elim (Option-cases (get previous p)) [
    | inl absent ↦
        rw (absent, walk_existing, existing_changes, unmatched)
          (walk_existing-feed previous actual ps w k)
    | inr (b, present) ↦
        rw (present, walk_existing, existing_changes, unmatched)
          (and_then-bind (walk_pair emit p b (at_or zero_state actual p) w')
              (walk_existing emit previous actual ps) k
            ∙ walk_pair-feed p b (at_or zero_state actual p) w'
                (λ v. and_then (walk_existing emit previous actual ps v) k)
            ∙ ap (λ f. feed (pair_changes p b (at_or zero_state actual p)) w.sink >>= f)
                (fun_ext λ s. walk_existing-feed previous actual ps (record w' { sink = s }) k)
            ∙ sym (
                feed-append-bind (pair_changes p b (at_or zero_state actual p))
                  (existing_changes previous actual ps) w.sink _))
  ]
    where
      w' : Walk S
      w' = record w {
        remaining_previous = remove w.remaining_previous p;
        remaining_actual = remove w.remaining_actual p;
      }

  walk_moves-feed :
      (prev_ids actual_ids : Map Str) (ids : List Str) (w : Walk S) (k : Walk S → Result E S)
      → let r = moves prev_ids actual_ids ids w.remaining_previous w.remaining_actual in
        and_then (walk_moves emit prev_ids actual_ids ids w) k ≡ (
          feed r.changes w.sink >>= λ s.
          k (record { remaining_previous = r.previous; remaining_actual = r.actual; sink = s }))
  unfolding walk_moves moves feed move_change
  walk_moves-feed prev_ids actual_ids [] w k = refl
  walk_moves-feed prev_ids actual_ids (id ∷ ids) w k =
      elim (Option-cases (old_path_of prev_ids id)) [
        | inl absent ↦ rw (absent, walk_moves, moves) (walk_moves-feed prev_ids actual_ids ids w k)
        | inr (old, present) ↦
            rw (present, walk_moves, moves)
              (elim (Result-cases (emit (moved_to old) w.sink)) [
                | inl (s, e) ↦
                    ground (arith, walk_moves-feed prev_ids actual_ids ids (settled old s) k)
                | inr (x, s, e) ↦ ground arith
              ])
      ]
    where
      moved_to : Str → Change
      moved_to old = move_change actual_ids id old w.remaining_previous w.remaining_actual

      settled : Str → S → Walk S
      settled old s = record {
        remaining_previous = remove w.remaining_previous old;
        remaining_actual = remove w.remaining_actual (at_or [] actual_ids id);
        sink = s;
      }

  walk_created-feed :
      (m : Map State) (paths : List Str) (s : S)
      → walk_created emit m paths s ≡ feed (created_changes m paths) s
  unfolding walk_created created_changes feed
  walk_created-feed m [] s = refl
  walk_created-feed m (p ∷ ps) s =
      ap (λ f. emit (change created p [] none (some (at_or zero_state m p))) s >>= f)
        (fun_ext (walk_created-feed m ps))

  walk_deleted-feed :
      (m : Map State) (paths : List Str) (s : S)
      → walk_deleted emit m paths s ≡ feed (deleted_changes m paths) s
  unfolding walk_deleted deleted_changes feed
  walk_deleted-feed m [] s = refl
  walk_deleted-feed m (p ∷ ps) s =
      ap (λ f. emit (change deleted p [] (some (at_or zero_state m p)) none) s >>= f)
        (fun_ext (walk_deleted-feed m ps))

  walk_expected-feed :
      (expected : Map Expected) (actual : Map State) (paths : List Str) (s : S)
      → walk_expected emit expected actual paths s ≡ feed (expected_changes expected actual paths) s
  unfolding walk_expected expected_changes feed
  walk_expected-feed expected actual [] s = refl
  walk_expected-feed expected actual (p ∷ ps) s = elim (Option-cases (get actual p)) [
    | inl e ↦
        rw (e, walk_expected, expected_changes, expected_change)
          (ap (λ f. emit (change missing p [] none none) s >>= f)
            (fun_ext (walk_expected-feed expected actual ps)))
    | inr (state, e) ↦
        rw (e, walk_expected, expected_changes, expected_change)
          (elim (Bool-cases (violates (at_or zero_expected expected p) state)) [
            | inl v ↦
                rw (v, walk_expected, expected_changes, expected_change)
                  (ap (λ f. emit (change invalid p [] none (some state)) s >>= f)
                    (fun_ext (walk_expected-feed expected actual ps)))
            | inr v ↦
                rw (v, walk_expected, expected_changes, expected_change)
                  (walk_expected-feed expected actual ps s)
          ])
  ]

  walk_orphans-feed :
      (only : Option (State → Bool)) (expected : Map Expected) (actual : Map State)
      (paths : List Str) (s : S)
      → walk_orphans emit only expected actual paths s
        ≡ feed (orphan_changes only expected actual paths) s
  unfolding walk_orphans orphan_changes feed
  walk_orphans-feed only expected actual [] s = refl
  walk_orphans-feed only expected actual (p ∷ ps) s =
      elim (Bool-cases (is_orphan only expected actual p)) [
        | inl o ↦
            rw (o, walk_orphans, orphan_changes)
              (ap (λ f. emit (change orphan p [] none (some (at_or zero_state actual p))) s >>= f)
                (fun_ext (walk_orphans-feed only expected actual ps)))
        | inr o ↦ rw (o, walk_orphans, orphan_changes) (walk_orphans-feed only expected actual ps s)
      ]

  walk_constraints-feed :
      (expected : Option (Map Expected)) (only : Option (State → Bool)) (actual : Map State) (s : S)
      → walk_constraints emit expected only actual s
        ≡ feed (constraint_changes expected only actual) s
  unfolding constraint_changes feed
  walk_constraints-feed none only actual s = refl
  walk_constraints-feed (some expected) only actual s =
      rw
        (
          walk_expected-feed expected actual (sorted_keys expected) s,
          fun_ext (walk_orphans-feed only expected actual (sorted_keys actual)),
        )
        (sym (
          feed-append (expected_changes expected actual (sorted_keys expected))
            (orphan_changes only expected actual (sorted_keys actual)) s))

  walk_rest-feed :
      (expected : Option (Map Expected)) (only : Option (State → Bool)) (actual : Map State)
      (w : Walk S)
      → walk_rest emit expected only actual w
        ≡ feed
            (created_changes w.remaining_actual (sorted_keys w.remaining_actual)
              ++ (deleted_changes w.remaining_previous (sorted_keys w.remaining_previous)
                  ++ constraint_changes expected only actual))
            w.sink
  unfolding walk_rest
  walk_rest-feed expected only actual w =
      rw
        (
          feed-append,
          fun_ext (
              feed-append (deleted_changes w.remaining_previous (sorted_keys w.remaining_previous))
                (constraint_changes expected only actual)),
        )
        (rw
          (
            ← fun_ext (walk_constraints-feed expected only actual),
            ← fun_ext (walk_deleted-feed w.remaining_previous (sorted_keys w.remaining_previous)),
            ← walk_created-feed w.remaining_actual (sorted_keys w.remaining_actual) w.sink,
          )
          (bind_assoc (walk_created emit w.remaining_actual (sorted_keys w.remaining_actual) w.sink)
            (walk_deleted emit w.remaining_previous (sorted_keys w.remaining_previous))
            (walk_constraints emit expected only actual)))

  -- The walk from the moves on.
  after_existing :
      (actual lost found : Map State) (expected : Option (Map Expected))
      (only : Option (State → Bool)) (s : S)
      → let r = moves_between lost found in
        and_then
          (walk_moves emit
            (index_unique_ids lost)
            (index_unique_ids found)
            (sorted_keys (index_unique_ids found))
            (record { remaining_previous = lost; remaining_actual = found; sink = s }))
          (walk_rest emit expected only actual)
        ≡ feed
            (r.changes
              ++ (created_changes r.actual (sorted_keys r.actual)
                  ++ (deleted_changes r.previous (sorted_keys r.previous)
                      ++ constraint_changes expected only actual)))
            s
  unfolding moves_between
  after_existing actual lost found expected only s =
      walk_moves-feed (index_unique_ids lost) (index_unique_ids found)
        (sorted_keys (index_unique_ids found))
        (record { remaining_previous = lost; remaining_actual = found; sink = s })
        (walk_rest emit expected only actual)
      ∙ ap (λ f. feed (moves_between lost found).changes s >>= f)
          (fun_ext λ t. walk_rest-feed expected only actual _)
      ∙ sym (feed-append (moves_between lost found).changes _ s)

  -- The streamed walk is the list of changes, fed to the callback up to its first error.
  pub walk_diff_scoped-feed :
      (previous actual : Map State) (expected : Option (Map Expected))
      (only : Option (State → Bool)) (s : S)
      → walk_diff_scoped emit previous actual expected only s
        ≡ feed (all_changes previous actual expected only) s
  unfolding walk_diff_scoped all_changes moves_between only_in_previous only_in_actual
  walk_diff_scoped-feed previous actual expected only s =
      and_then-bind (walk_existing emit previous actual (sorted_keys actual) w) from_moves
        (walk_rest emit expected only actual)
      ∙ walk_existing-feed previous actual (sorted_keys actual) w
          (λ v. and_then (from_moves v) (walk_rest emit expected only actual))
      ∙ ap (λ f. feed (existing_changes previous actual (sorted_keys actual)) s >>= f)
          (fun_ext (
            after_existing actual (only_in_previous previous actual)
              (only_in_actual previous actual) expected only))
      ∙ sym (feed-append (existing_changes previous actual (sorted_keys actual)) _ s)
    where
      w : Walk S
      w = record { remaining_previous = previous; remaining_actual = actual; sink = s }

      from_moves : Walk S → Result E (Walk S)
      from_moves v =
          walk_moves emit (index_unique_ids v.remaining_previous)
            (index_unique_ids v.remaining_actual)
            (sorted_keys (index_unique_ids v.remaining_actual)) v

collect-feed : (cs xs : List Change) → feed collect cs xs ≡ ok (xs ++ cs)
unfolding feed
collect-feed [] xs = ap ok (sym (append-nil xs))
collect-feed (c ∷ cs) xs = collect-feed cs (xs ++ c ∷ []) ∙ ap ok (append_assoc xs (c ∷ []) cs)

-- `Diff` returns all changes of the walk.
pub diff-all_changes :
    (previous actual : Map State) (expected : Option (Map Expected))
    → diff previous actual expected ≡ all_changes previous actual expected none
unfolding diff walk_diff
diff-all_changes previous actual expected = ap final (
    walk_diff_scoped-feed collect previous actual expected none []
    ∙ collect-feed (all_changes previous actual expected none) [])
