-- ===== src/Diff/Owners.antt =====
-- The owners of identities, and that no path moves twice.
use fsrecon.Prelude.{
  ◌≡◌, ◌∙◌, Str, Map, true, false, some, List, [], ◌∷◌, arith, str_eq_iff, str_eq_refl, get, remove,
  has, at_or, elem, IsMap, IsDistinct, Bool-cases, Option-cases, inl, inr, sorted_keys, keys,
  elem-sort, elem-keys, sort-IsDistinct, keys-IsDistinct, remove-IsMap,
}
use fsrecon.Diff.{State, index_unique_ids}
use fsrecon.Diff.Spec.{old_path_of, unmatched}
use fsrecon.Diff.Moves.{news, olds, index_unique_ids-owner}

pub elem-sorted_keys {ℓ} : {V : Type ℓ} (m : Map V) (p : Str) → elem p (sorted_keys m) ≡ has m p
unfolding sorted_keys
elem-sorted_keys m p = elem-sort p (keys m) ∙ elem-keys m p

pub sorted_keys-IsDistinct {ℓ} : {V : Type ℓ} (m : Map V) → IsMap m → IsDistinct (sorted_keys m)
unfolding sorted_keys
sorted_keys-IsDistinct m h = sort-IsDistinct (keys m) (keys-IsDistinct m h)

pub unmatched-IsMap :
    (previous : Map State) (ps : List Str) (m : Map State)
    → IsMap m
    → IsMap (unmatched previous ps m)
unfolding unmatched
unmatched-IsMap previous [] m h = h
unmatched-IsMap previous (p ∷ ps) m h = ground (
  arith,
  unmatched-IsMap previous ps m h,
  unmatched-IsMap previous ps (remove m p) (remove-IsMap m p h),
)

-- Each new path of a move is the indexed path of one of the identities.
pub news-owner :
    (prev_ids actual_ids : Map Str) (ids : List Str) (q : Str)
    → ((id : Str) → elem id ids ≡ true → has actual_ids id ≡ true)
    → elem q (news prev_ids actual_ids ids) ≡ true
    → (id : Str) × (elem id ids ≡ true) × (get actual_ids id ≡ some q)
unfolding news elem
news-owner prev_ids actual_ids [] q all h = cc
news-owner prev_ids actual_ids (id ∷ ids) q all h =
    elim (Bool-cases (elem q (news prev_ids actual_ids ids))) [
      | inl later ↦
          let (j, member, held) =
            news-owner prev_ids actual_ids ids q (λ j m. all j (ground arith)) later in
          (j, ground arith, held)
      | inr now ↦ (
        id,
        ground (arith, str_eq_iff id id),
        ground (
          arith,
          all id (ground (arith, str_eq_iff id id)),
          str_eq_iff (at_or [] actual_ids id) q,
        ),
      )
    ]

pub olds-owner :
    (prev_ids : Map Str) (ids : List Str) (q : Str)
    → elem q (olds prev_ids ids) ≡ true
    → (id : Str) × (get prev_ids id ≡ some q)
unfolding olds elem
olds-owner prev_ids [] q h = cc
olds-owner prev_ids (id ∷ ids) q h = elim (Bool-cases (elem q (olds prev_ids ids))) [
  | inl later ↦ olds-owner prev_ids ids q later
  | inr now ↦ (
    id,
    elim (Option-cases (old_path_of prev_ids id)) [
      | inl e ↦ absurd (ground arith)
      | inr (old, e) ↦ ground (arith, str_eq_iff old q)
    ],
  )
]

-- One path has one identity.
same_owner :
    (m : Map State) (i j q : Str)
    → IsMap m
    → get (index_unique_ids m) i ≡ some q
    → get (index_unique_ids m) j ≡ some q
    → i ≡ j
same_owner m i j q im h k =
    let (s, held, own) = index_unique_ids-owner m i q im h in
    let (t, held', own') = index_unique_ids-owner m j q im k in ground arith

head-fresh :
    (prev_ids : Map Str) (m : Map State) (id : Str) (ids : List Str)
    → IsMap m
    → ((j : Str) → elem j (id ∷ ids) ≡ true → has (index_unique_ids m) j ≡ true)
    → elem id ids ≡ false
    → elem (at_or [] (index_unique_ids m) id) (news prev_ids (index_unique_ids m) ids) ≡ false
unfolding elem
head-fresh prev_ids m id ids im all d =
    let n : Str = at_or [] (index_unique_ids m) id in
    let here : has (index_unique_ids m) id ≡ true = all id (ground (arith, str_eq_refl id)) in
    elim (Bool-cases (elem n (news prev_ids (index_unique_ids m) ids))) [
      | inl again ↦
          let (j, member, held) =
            news-owner prev_ids (index_unique_ids m) ids n (λ j e. all j (ground arith)) again in
          absurd (ground (arith, same_owner m id j n im (ground arith) held))
      | inr fresh ↦ fresh
    ]

pub news-IsDistinct :
    (prev_ids : Map Str) (m : Map State) (ids : List Str)
    → IsMap m
    → ((id : Str) → elem id ids ≡ true → has (index_unique_ids m) id ≡ true)
    → IsDistinct ids
    → IsDistinct (news prev_ids (index_unique_ids m) ids)
unfolding news elem
news-IsDistinct prev_ids m [] im all d = tt
news-IsDistinct prev_ids m (id ∷ ids) im all d =
    let rest = news-IsDistinct prev_ids m ids im (λ j e. all j (ground arith)) d.1 in
    elim (Option-cases (old_path_of prev_ids id)) [
      | inl e ↦ rw (e, news) rest
      | inr (old, e) ↦ rw (e, news) (head-fresh prev_ids m id ids im all d.0, rest)
    ]
