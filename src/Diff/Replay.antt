-- ===== src/Diff/Replay.antt =====
-- What the changes of internal/reconcile/reconcile.go mean for a snapshot: replaying them over the
-- previous one. The lemmas follow a single path through each part of the walk.
use fsrecon.Prelude.{
  ◌≡◌, refl, ◌∙◌, ap, Str, Map, ◌&&◌, Option, none, some, List, [], ◌∷◌, ◌++◌, arith, str_eq,
  str_eq_iff, get, put, remove, has, at_or, elem, get-put, get-remove, Option-cases, inl, inr,
  if◌then◌else◌,
}
use fsrecon.Diff.{
  State, zero_state, Change, change, Kind, created, deleted, moved, modified, replaced,
  attribute_changed, missing, orphan, invalid, classify,
}
use fsrecon.Diff.Spec.{existing_changes, pair_changes, unmatched, created_changes, deleted_changes}

abbrev pub put_some : Map State → Str → Option State → Map State
put_some m p none = m
put_some m p (some s) = put m p s

abbrev pub replay_kind : Kind → Change → Map State → Map State
replay_kind created c m = put_some m c.path c.after
replay_kind modified c m = put_some m c.path c.after
replay_kind replaced c m = put_some m c.path c.after
replay_kind attribute_changed c m = put_some m c.path c.after
replay_kind moved c m = put_some (remove m c.old_path) c.path c.after
replay_kind deleted c m = remove m c.path
replay_kind missing c m = m
replay_kind orphan c m = m
replay_kind invalid c m = m

-- The snapshot after the changes; `missing`, `orphan` and `invalid` speak of expectations only.
unfoldable pub replay : List Change → Map State → Map State
replay [] m = m
replay (c ∷ cs) m = replay cs (replay_kind c.kind c m)

abbrev pub set_at : Str → Change → Option State → Option State
set_at p c o = if str_eq c.path p then (elim c.after [ none ↦ o | some s ↦ some s ]) else o

abbrev pub effect_kind : Kind → Str → Change → Option State → Option State
effect_kind created p c o = set_at p c o
effect_kind modified p c o = set_at p c o
effect_kind replaced p c o = set_at p c o
effect_kind attribute_changed p c o = set_at p c o
effect_kind moved p c o = set_at p c (if str_eq c.old_path p then none else o)
effect_kind deleted p c o = if str_eq c.path p then none else o
effect_kind missing p c o = o
effect_kind orphan p c o = o
effect_kind invalid p c o = o

-- The entry of one path after the changes.
unfoldable pub effect : Str → List Change → Option State → Option State
effect p [] o = o
effect p (c ∷ cs) o = effect p cs (effect_kind c.kind p c o)

get-put_some :
    (m : Map State) (k p : Str) (o : Option State)
    → get (put_some m k o) p
      ≡ (if str_eq k p then (elim o [ none ↦ get m p | some s ↦ some s ]) else get m p)
get-put_some m k p none = ground arith
get-put_some m k p (some s) = get-put m k p s

get-replay_kind :
    (k : Kind) (c : Change) (m : Map State) (p : Str)
    → get (replay_kind k c m) p ≡ effect_kind k p c (get m p)
get-replay_kind moved c m p =
    get-put_some (remove m c.old_path) c.path p c.after ∙ ground (arith, get-remove m c.old_path p)
get-replay_kind deleted c m p = get-remove m c.path p
get-replay_kind created c m p = get-put_some m c.path p c.after
get-replay_kind modified c m p = get-put_some m c.path p c.after
get-replay_kind replaced c m p = get-put_some m c.path p c.after
get-replay_kind attribute_changed c m p = get-put_some m c.path p c.after
get-replay_kind missing c m p = refl
get-replay_kind orphan c m p = refl
get-replay_kind invalid c m p = refl

pub get-replay :
    (cs : List Change) (m : Map State) (p : Str) → get (replay cs m) p ≡ effect p cs (get m p)
unfolding replay effect
get-replay [] m p = refl
get-replay (c ∷ cs) m p =
    get-replay cs (replay_kind c.kind c m) p ∙ ap (effect p cs) (get-replay_kind c.kind c m p)

pub effect-append :
    (p : Str) (xs ys : List Change) (o : Option State)
    → effect p (xs ++ ys) o ≡ effect p ys (effect p xs o)
unfolding effect
effect-append p [] ys o = refl
effect-append p (c ∷ xs) ys o = effect-append p xs ys (effect_kind c.kind p c o)

pub get-unmatched :
    (previous : Map State) (ps : List Str) (m : Map State) (p : Str)
    → get (unmatched previous ps m) p ≡ (if elem p ps && has previous p then none else get m p)
unfolding unmatched elem
get-unmatched previous [] m p = refl
get-unmatched previous (q ∷ ps) m p = ground (
  arith,
  get-unmatched previous ps m p,
  get-unmatched previous ps (remove m q) p,
  get-remove m q p,
  str_eq_iff q p,
)

-- The entry of a path that both snapshots hold: the new one if there is anything to report.
unfoldable pub update : State → State → Option State → Option State
update before after o = elim (classify before after) [ none ↦ o | some k ↦ some after ]

classify_kinds :
    (before after : State) (p : Str) (c : Change) (k : Kind)
    → classify before after ≡ some k
    → (o : Option State) → effect_kind k p c o ≡ set_at p c o
unfolding classify
classify_kinds before after p c k h o = ground arith

effect-pair :
    (q p : Str) (b a : State) (o : Option State)
    → effect p (pair_changes q b a) o ≡ (if str_eq q p then update b a o else o)
unfolding effect update
effect-pair q p b a o = elim (Option-cases (classify b a)) [
  | inl e ↦ rw (e, pair_changes, update) (ground arith)
  | inr (k, e) ↦
      rw (e, pair_changes, update)
        (classify_kinds b a p (change k q [] (some b) (some a)) k e o ∙ ground arith)
]

update_twice : (b a : State) (o : Option State) → update b a (update b a o) ≡ update b a o
unfolding update
update_twice b a o = ground arith

pub effect-existing :
    (previous actual : Map State) (ps : List Str) (p : Str) (o : Option State)
    → effect p (existing_changes previous actual ps) o ≡ (elim (get previous p) [
      | none ↦ o
      | some b ↦ if elem p ps then update b (at_or zero_state actual p) o else o
    ])
unfolding effect existing_changes elem
effect-existing previous actual [] p o = ground arith
effect-existing previous actual (q ∷ ps) p o = elim (Option-cases (get previous q)) [
  | inl e ↦
      rw (e, existing_changes)
        (effect-existing previous actual ps p o ∙ ground (arith, str_eq_iff q p))
  | inr (b, e) ↦
      rw (e, existing_changes)
        (effect-append p (pair_changes q b (at_or zero_state actual q))
            (existing_changes previous actual ps) o
          ∙ ap (effect p (existing_changes previous actual ps))
              (effect-pair q p b (at_or zero_state actual q) o)
          ∙ effect-existing previous actual ps p
              (if str_eq q p then update b (at_or zero_state actual q) o else o)
          ∙ ground (arith, str_eq_iff q p, update_twice b (at_or zero_state actual q) o))
]

pub effect-created :
    (m : Map State) (ps : List Str) (p : Str) (o : Option State)
    → effect p (created_changes m ps) o ≡ (if elem p ps then some (at_or zero_state m p) else o)
unfolding effect created_changes elem
effect-created m [] p o = refl
effect-created m (q ∷ ps) p o =
    effect-created m ps p (if str_eq q p then some (at_or zero_state m q) else o)
    ∙ ground (arith, str_eq_iff q p)

pub effect-deleted :
    (m : Map State) (ps : List Str) (p : Str) (o : Option State)
    → effect p (deleted_changes m ps) o ≡ (if elem p ps then none else o)
unfolding effect deleted_changes elem
effect-deleted m [] p o = refl
effect-deleted m (q ∷ ps) p o =
    effect-deleted m ps p (if str_eq q p then none else o) ∙ ground arith
