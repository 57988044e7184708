-- ===== src/Store/Tree/Collected.antt =====
-- What `collect` of store.go finds in a tree.
use fsrecon.Prelude.{
  ◌≡◌, refl, ap, Bool, true, false, Str, none, some, List, [], ◌∷◌, ◌++◌, arith, elem, elem-append,
  IsDistinct, str_eq, str_eq_iff, str_eq_refl, Bool-cases, inl, inr,
}
use fsrecon.Store.Tree.{
  Node, node, Children, no_children, child, get_child, find_node, own_path, collect,
  collect_children,
}
use fsrecon.Store.Tree.Laws.{path_at, is_tree, is_forest}

-- `collect` gives the paths of the tree, and no others.
mutual
  unfolding collect path_at find_node get_child is_tree elem

  pub collect-path_at :
      (n : Node) (x : Str)
      → is_tree n ≡ true
      → elem x (collect n) ≡ true
      → (ps : List Str) × (path_at ps n ≡ some x)
  collect-path_at (node true path cs) x h e = elim (Bool-cases (str_eq path x)) [
    | inl here ↦ ([], ground (arith, str_eq_iff path x))
    | inr there ↦
        let (p, m, ps, got, found) =
          collect_children-path_at cs x h
            (ground (arith, elem-append x (own_path true path) (collect_children cs))) in
        (p ∷ ps, ground arith)
  ]
  collect-path_at (node false path cs) x h e =
      let (p, m, ps, got, found) = collect_children-path_at cs x h e in (p ∷ ps, ground arith)

  collect_children-path_at :
      (cs : Children) (x : Str)
      → is_forest cs ≡ true
      → elem x (collect_children cs) ≡ true
      → (p : Str) × (m : Node) × (ps : List Str) × (get_child p cs ≡ some m)
        × (path_at ps m ≡ some x)
  collect_children-path_at no_children x h e = cc
  collect_children-path_at (child name m rest) x h e = elim (Bool-cases (elem x (collect m))) [
    | inl here ↦
        let (ps, found) = collect-path_at m x (ground arith) here in
        (name, m, ps, ground (arith, str_eq_refl name), found)
    | inr there ↦
        let (p, n, ps, got, found) =
          collect_children-path_at rest x (ground arith)
            (ground (arith, elem-append x (collect m) (collect_children rest))) in
        (p, n, ps, ground (arith, str_eq_iff name p), found)
  ]

mutual
  unfolding collect path_at find_node get_child elem

  pub path_at-collect :
      (n : Node) (ps : List Str) (x : Str) → path_at ps n ≡ some x → elem x (collect n) ≡ true
  path_at-collect (node true path cs) [] x e =
      ground (arith, elem-append x (own_path true path) (collect_children cs), str_eq_iff path x)
  path_at-collect (node false path cs) [] x e = cc
  path_at-collect (node t path cs) (p ∷ ps) x e =
      ground (
        arith,
        get_child-collect cs p ps x e,
        elem-append x (own_path t path) (collect_children cs),
      )

  get_child-collect :
      (cs : Children) (p : Str) (ps : List Str) (x : Str)
      → path_at (p ∷ ps) (node false [] cs) ≡ some x
      → elem x (collect_children cs) ≡ true
  get_child-collect no_children p ps x e = cc
  get_child-collect (child name m rest) p ps x e = elim (Bool-cases (str_eq name p)) [
    | inl here ↦ ground (
      arith,
      path_at-collect m ps x (ground arith),
      elem-append x (collect m) (collect_children rest),
    )
    | inr there ↦ ground (
      arith,
      get_child-collect rest p ps x (ground arith),
      elem-append x (collect m) (collect_children rest),
    )
  ]

IsDistinct-append :
    (xs ys : List Str)
    → IsDistinct xs
    → IsDistinct ys
    → ((x : Str) → elem x xs ≡ true → elem x ys ≡ false)
    → IsDistinct (xs ++ ys)
unfolding elem
IsDistinct-append [] ys dx dy apart = dy
IsDistinct-append (x ∷ xs) ys dx dy apart = (
  ground (arith, elem-append x xs ys, apart x (ground (arith, str_eq_refl x)), dx.0),
  IsDistinct-append xs ys dx.1 dy (λ z h. apart z (ground arith)),
)

-- One path ends at one place.
abbrev pub IsPlaced : Node → Type 0
IsPlaced n = (ps qs : List Str) (x : Str) → path_at ps n ≡ some x → path_at qs n ≡ some x → ps ≡ qs

abbrev tail_of : List Str → List Str
tail_of [] = []
tail_of (p ∷ ps) = ps

IsPlaced-children :
    (t : Bool) (path : Str) (cs : Children)
    → IsPlaced (node t path cs)
    → IsPlaced (node false [] cs)
unfolding path_at find_node
IsPlaced-children t path cs placed [] qs x e f = cc
IsPlaced-children t path cs placed (p ∷ ps) [] x e f = cc
IsPlaced-children t path cs placed (p ∷ ps) (q ∷ qs) x e f = placed (p ∷ ps) (q ∷ qs) x e f

IsPlaced-first :
    (name : Str) (m : Node) (rest : Children)
    → IsPlaced (node false [] (child name m rest))
    → IsPlaced m
unfolding path_at find_node get_child
IsPlaced-first name m rest placed ps qs x e f = ap tail_of (
    placed (name ∷ ps) (name ∷ qs) x (ground (arith, str_eq_refl name))
      (ground (arith, str_eq_refl name)))

IsPlaced-later :
    (name : Str) (m : Node) (rest : Children)
    → get_child name rest ≡ none
    → IsPlaced (node false [] (child name m rest))
    → IsPlaced (node false [] rest)
unfolding path_at find_node get_child
IsPlaced-later name m rest new placed [] qs x e f = cc
IsPlaced-later name m rest new placed (p ∷ ps) [] x e f = cc
IsPlaced-later name m rest new placed (p ∷ ps) (q ∷ qs) x e f =
    placed (p ∷ ps) (q ∷ qs) x (ground (arith, str_eq_iff name p))
      (ground (arith, str_eq_iff name q))

-- A path below one child is not below another.
apart_children :
    (name : Str) (m : Node) (rest : Children) (x : Str)
    → is_forest (child name m rest) ≡ true
    → IsPlaced (node false [] (child name m rest))
    → elem x (collect m) ≡ true
    → elem x (collect_children rest) ≡ false
unfolding path_at find_node get_child is_tree
apart_children name m rest x h placed here = elim (Bool-cases (elem x (collect_children rest))) [
  | inl there ↦
      let (ps, e) = collect-path_at m x (ground arith) here in
      let (q, k, qs, got, f) = collect_children-path_at rest x (ground arith) there in
      absurd (
        ground (
          arith,
          placed (name ∷ ps) (q ∷ qs) x (ground (arith, str_eq_refl name))
              (ground (arith, str_eq_iff name q)),
        ))
  | inr other ↦ other
]

mutual
  unfolding collect is_tree path_at find_node

  pub collect-IsDistinct : (n : Node) → is_tree n ≡ true → IsPlaced n → IsDistinct (collect n)
  collect-IsDistinct (node true path cs) h placed = (
    elim (Bool-cases (elem path (collect_children cs))) [
      | inl again ↦
          let (p, m, ps, got, found) = collect_children-path_at cs path h again in
          absurd (ground (arith, placed [] (p ∷ ps) path refl (ground arith)))
      | inr fresh ↦ fresh
    ],
    collect_children-IsDistinct cs h (IsPlaced-children true path cs placed),
  )
  collect-IsDistinct (node false path cs) h placed =
      collect_children-IsDistinct cs h (IsPlaced-children false path cs placed)

  collect_children-IsDistinct :
      (cs : Children)
      → is_forest cs ≡ true
      → IsPlaced (node false [] cs)
      → IsDistinct (collect_children cs)
  collect_children-IsDistinct no_children h placed = tt
  collect_children-IsDistinct (child name m rest) h placed =
      IsDistinct-append (collect m) (collect_children rest)
        (collect-IsDistinct m (ground arith) (IsPlaced-first name m rest placed))
        (collect_children-IsDistinct rest (ground arith)
          (IsPlaced-later name m rest (ground arith) placed))
        (λ x here. apart_children name m rest x h placed here)
