-- ===== src/Diff/Moves.antt =====
-- The moves of internal/reconcile/reconcile.go: which paths they touch, and what they leave.
use fsrecon.Prelude.{
  ◌≡◌, refl, ◌∙◌, Str, Map, true, false, ◌&&◌, ◌||◌, Option, none, some, List, [], ◌∷◌, arith,
  str_eq, str_eq_iff, get, put, remove, at_or, elem, IsMap, IsDistinct, get-remove, Bool-cases,
  Option-cases, inl, inr, if◌then◌else◌, put-IsMap, remove-IsMap,
}
use fsrecon.Diff.{State, zero_state, index_ids, remove_all, index_unique_ids}
use fsrecon.Diff.Spec.{moves, move_change, old_path_of}
use fsrecon.Diff.Index.{owners, sole, get-index_unique_ids}
use fsrecon.Diff.Replay.{effect, set_at}

-- The two ends of the moves.
unfoldable pub news : Map Str → Map Str → List Str → List Str
news prev_ids actual_ids [] = []
news prev_ids actual_ids (id ∷ ids) =
    let rest = news prev_ids actual_ids ids in
    elim (old_path_of prev_ids id) [ none ↦ rest | some old ↦ at_or [] actual_ids id ∷ rest ]

unfoldable pub olds : Map Str → List Str → List Str
olds prev_ids [] = []
olds prev_ids (id ∷ ids) =
    let rest = olds prev_ids ids in
    elim (old_path_of prev_ids id) [ none ↦ rest | some old ↦ old ∷ rest ]

pub get-moves_actual :
    (prev_ids actual_ids : Map Str) (ids : List Str) (previous actual : Map State) (p : Str)
    → get (moves prev_ids actual_ids ids previous actual).actual p
      ≡ (if elem p (news prev_ids actual_ids ids) then none else get actual p)
unfolding moves news elem
get-moves_actual prev_ids actual_ids [] previous actual p = refl
get-moves_actual prev_ids actual_ids (id ∷ ids) previous actual p =
    elim (Option-cases (old_path_of prev_ids id)) [
      | inl e ↦ rw (e, moves, news) (get-moves_actual prev_ids actual_ids ids previous actual p)
      | inr (old, e) ↦
          rw (e, moves, news)
            (get-moves_actual prev_ids actual_ids ids (remove previous old)
                (remove actual (at_or [] actual_ids id)) p
              ∙ ground (arith, get-remove actual (at_or [] actual_ids id) p))
    ]

pub get-moves_previous :
    (prev_ids actual_ids : Map Str) (ids : List Str) (previous actual : Map State) (p : Str)
    → get (moves prev_ids actual_ids ids previous actual).previous p
      ≡ (if elem p (olds prev_ids ids) then none else get previous p)
unfolding moves olds elem
get-moves_previous prev_ids actual_ids [] previous actual p = refl
get-moves_previous prev_ids actual_ids (id ∷ ids) previous actual p =
    elim (Option-cases (old_path_of prev_ids id)) [
      | inl e ↦ rw (e, moves, olds) (get-moves_previous prev_ids actual_ids ids previous actual p)
      | inr (old, e) ↦
          rw (e, moves, olds)
            (get-moves_previous prev_ids actual_ids ids (remove previous old)
                (remove actual (at_or [] actual_ids id)) p
              ∙ ground (arith, get-remove previous old p))
    ]

pub effect-moves :
    (prev_ids actual_ids : Map Str) (ids : List Str) (previous actual : Map State) (p : Str)
    (o : Option State)
    → IsDistinct (news prev_ids actual_ids ids)
    → elem p (news prev_ids actual_ids ids) && elem p (olds prev_ids ids) ≡ false
    → effect p (moves prev_ids actual_ids ids previous actual).changes o ≡ (
        if elem p (news prev_ids actual_ids ids)
        then some (at_or zero_state actual p)
        else if elem p (olds prev_ids ids)
        then none
        else o)
unfolding moves news olds elem effect move_change
effect-moves prev_ids actual_ids [] previous actual p o d h = refl
effect-moves prev_ids actual_ids (id ∷ ids) previous actual p o d h =
    elim (Option-cases (old_path_of prev_ids id)) [
      | inl e ↦
          rw (e, moves, news, olds)
            (effect-moves prev_ids actual_ids ids previous actual p o (rw (e, news) at d)
              (rw (e, news, olds) at h))
      | inr (old, e) ↦
          let n : Str = at_or [] actual_ids id in
          let d' : IsDistinct (n ∷ news prev_ids actual_ids ids) = rw (e, news) at d in
          let h' : (str_eq n p || elem p (news prev_ids actual_ids ids))
                && (str_eq old p || elem p (olds prev_ids ids))
              ≡ false =
            rw (e, news, olds) at h in
          rw (e, moves, news, olds)
            (effect-moves prev_ids actual_ids ids (remove previous old) (remove actual n) p
                (set_at p (move_change actual_ids id old previous actual)
                  (if str_eq old p then none else o))
                d'.1 (ground arith)
              ∙ ground (arith, d'.0, get-remove actual n p, str_eq_iff n p))
    ]

-- A path of the index owns its identity.
owners-elem :
    (id q : Str) (m : Map State)
    → IsMap m
    → elem q (owners id m) ≡ true
    → (s : State) × (get m q ≡ some s) × (s.id ≡ id)
unfolding owners elem get
owners-elem id q [] d h = cc
owners-elem id q ((p, s) ∷ m) d h = elim (Bool-cases (str_eq p q)) [
  | inl here ↦ elim (Bool-cases (str_eq s.id id)) [
    | inl mine ↦ (s, ground arith, (str_eq_iff s.id id).0 mine)
    | inr other ↦ absurd (ground (arith, owners-elem id q m d.1 (ground arith), str_eq_iff p q))
  ]
  | inr there ↦ let (t, held, own) = owners-elem id q m d.1 (ground arith) in (t, ground arith, own)
]

elem-sole : (q : Str) (xs : List Str) → sole xs ≡ some q → elem q xs ≡ true
unfolding elem
elem-sole q [] h = cc
elem-sole q (x ∷ []) h = ground (arith, str_eq_iff x q)
elem-sole q (x ∷ y ∷ ys) h = cc

pub index_unique_ids-owner :
    (m : Map State) (id q : Str)
    → IsMap m
    → get (index_unique_ids m) id ≡ some q
    → (s : State) × (get m q ≡ some s) × (s.id ≡ id)
index_unique_ids-owner m id q d h =
    owners-elem id q m d (elem-sole q (owners id m) (ground (arith, get-index_unique_ids m id)))

index_ids-IsMap :
    (states : Map State) (result : Map Str) (duplicates : Map (Unit {0}))
    → IsMap result
    → IsMap (index_ids states result duplicates).0
unfolding index_ids
index_ids-IsMap [] result duplicates h = h
index_ids-IsMap ((p, s) ∷ m) result duplicates h = ground (
  arith,
  index_ids-IsMap m result duplicates h,
  index_ids-IsMap m result (put duplicates s.id tt) h,
  index_ids-IsMap m (put result s.id p) duplicates (put-IsMap result s.id p h),
)

remove_all-IsMap {ℓ κ} :
    {V : Type ℓ} {W : Type κ} (ks : Map W) (m : Map V) → IsMap m → IsMap (remove_all ks m)
unfolding remove_all
remove_all-IsMap [] m h = h
remove_all-IsMap ((k, w) ∷ ks) m h = remove_all-IsMap ks (remove m k) (remove-IsMap m k h)

pub index_unique_ids-IsMap : (m : Map State) → IsMap (index_unique_ids m)
unfolding index_unique_ids
index_unique_ids-IsMap m =
    remove_all-IsMap (index_ids m [] []).1 (index_ids m [] []).0 (index_ids-IsMap m [] [] tt)
