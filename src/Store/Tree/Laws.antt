-- ===== src/Store/Tree/Laws.antt =====
-- The tree of store.go as a map from lists of path elements to paths.
use fsrecon.Prelude.{
  ◌≡◌, ◌↔◌, refl, Bool, true, false, not, ◌&&◌, Str, Option, none, some, List, [], ◌∷◌, ◌++◌, arith,
  str_eq, str_eq_iff, Option-cases, inl, inr, if◌then◌else◌, is_some,
}
use fsrecon.Store.Tree.{
  Node, node, Children, no_children, child, empty_node, get_child, set_child, delete_child,
  child_or_new, insert_path, children_of, find_node, is_bare, remove_memory_path, remove_path,
}

unfoldable pub parts_eq : List Str → List Str → Bool
parts_eq [] [] = true
parts_eq [] (b ∷ bs) = false
parts_eq (a ∷ as') [] = false
parts_eq (a ∷ as') (b ∷ bs) = str_eq a b && parts_eq as' bs

pub parts_eq_iff : (as' bs : List Str) → (parts_eq as' bs ≡ true) ↔ (as' ≡ bs)
unfolding parts_eq
parts_eq_iff [] [] = (λ h. refl, λ h. refl)
parts_eq_iff [] (b ∷ bs) = ground arith
parts_eq_iff (a ∷ as') [] = ground arith
parts_eq_iff (a ∷ as') (b ∷ bs) = ground (arith, str_eq_iff a b, parts_eq_iff as' bs)

abbrev own : Node → Option Str
own (node true path cs) = some path
own (node false path cs) = none

-- The path that ends at some elements.
unfoldable pub path_at : List Str → Node → Option Str
path_at parts n = elim (find_node parts n) [ none ↦ none | some m ↦ own m ]

get_child-set_child :
    (k j : Str) (m : Node) (cs : Children)
    → get_child j (set_child k m cs) ≡ (if str_eq k j then some m else get_child j cs)
unfolding get_child set_child
get_child-set_child k j m no_children = refl
get_child-set_child k j m (child name n rest) =
    ground
      (arith, get_child-set_child k j m rest, str_eq_iff name k, str_eq_iff name j, str_eq_iff k j)

get_child-delete_child :
    (k j : Str) (cs : Children)
    → get_child j (delete_child k cs) ≡ (if str_eq k j then none else get_child j cs)
unfolding get_child delete_child
get_child-delete_child k j no_children = ground arith
get_child-delete_child k j (child name n rest) =
    ground
      (arith, get_child-delete_child k j rest, str_eq_iff name k, str_eq_iff name j, str_eq_iff k j)

path_at-bare : (parts : List Str) (n : Node) → is_bare n ≡ true → path_at parts n ≡ none
unfolding path_at find_node get_child
path_at-bare [] (node true path cs) h = cc
path_at-bare [] (node false path cs) h = refl
path_at-bare (part ∷ parts) (node true path cs) h = cc
path_at-bare (part ∷ parts) (node false path no_children) h = refl
path_at-bare (part ∷ parts) (node false path (child name n rest)) h = cc

pub path_at-insert_path :
    (ps qs : List Str) (path : Str) (n : Node)
    → path_at qs (insert_path ps path n) ≡ (if parts_eq ps qs then some path else path_at qs n)
unfolding path_at find_node insert_path parts_eq
path_at-insert_path [] [] path (node t old cs) = refl
path_at-insert_path [] (q ∷ qs) path (node t old cs) = refl
path_at-insert_path (p ∷ ps) [] path (node true old cs) = refl
path_at-insert_path (p ∷ ps) [] path (node false old cs) = refl
path_at-insert_path (p ∷ ps) (q ∷ qs) path (node t old cs) = ground (
  arith,
  get_child-set_child p q (insert_path ps path (child_or_new p cs)) cs,
  path_at-insert_path ps qs path (child_or_new p cs),
  path_at-bare qs empty_node,
  str_eq_iff p q,
)

remove_memory_path-bare :
    (ps : List Str) (n : Node)
    → (remove_memory_path ps n).0 ≡ true
    → is_bare (remove_memory_path ps n).1 ≡ true
unfolding remove_memory_path
remove_memory_path-bare [] (node t old cs) h = h
remove_memory_path-bare (p ∷ ps) (node t old cs) h = ground arith

path_at-remove_memory_path :
    (ps qs : List Str) (n : Node)
    → path_at qs (remove_memory_path ps n).1 ≡ (if parts_eq ps qs then none else path_at qs n)
unfolding path_at find_node remove_memory_path parts_eq
path_at-remove_memory_path [] [] (node t old cs) = refl
path_at-remove_memory_path [] (q ∷ qs) (node t old cs) = refl
path_at-remove_memory_path (p ∷ ps) [] (node t old cs) = ground arith
path_at-remove_memory_path (p ∷ ps) (q ∷ qs) (node t old cs) =
    elim (Option-cases (get_child p cs)) [
      | inl e ↦ rw (e, remove_memory_path) (ground (arith, str_eq_iff p q))
      | inr (m, e) ↦
          rw (e, remove_memory_path)
            (ground (
              arith,
              path_at-remove_memory_path ps qs m,
              remove_memory_path-bare ps m,
              path_at-bare qs (remove_memory_path ps m).1,
              get_child-set_child p q (remove_memory_path ps m).1 cs,
              get_child-delete_child p q cs,
              str_eq_iff p q,
            ))
    ]

pub path_at-remove_path :
    (ps qs : List Str) (n : Node)
    → path_at qs (remove_path ps n) ≡ (if parts_eq ps qs then none else path_at qs n)
unfolding remove_path
path_at-remove_path ps qs n = path_at-remove_memory_path ps qs n

-- `find` splits the way to a path.
pub path_at-append :
    (ps qs : List Str) (n : Node)
    → path_at (ps ++ qs) n ≡ (elim (find_node ps n) [ none ↦ none | some m ↦ path_at qs m ])
unfolding path_at find_node
path_at-append [] qs n = refl
path_at-append (p ∷ ps) qs n = elim (Option-cases (get_child p (children_of n))) [
  | inl e ↦ ground arith
  | inr (m, e) ↦ ground (arith, path_at-append ps qs m)
]

-- The children of a node have distinct names, as the keys of a map do.
unfoldable mutual
  pub is_tree : Node → Bool
  is_tree (node terminal path cs) = is_forest cs

  pub is_forest : Children → Bool
  is_forest no_children = true
  is_forest (child name n rest) =
      not (is_some (get_child name rest)) && (is_tree n && is_forest rest)

get_child-is_tree :
    (part : Str) (cs : Children) (n : Node)
    → is_forest cs ≡ true
    → get_child part cs ≡ some n
    → is_tree n ≡ true
unfolding get_child is_tree
get_child-is_tree part no_children n h e = cc
get_child-is_tree part (child name m rest) n h e = ground (arith, get_child-is_tree part rest n)

set_child-is_forest :
    (part : Str) (n : Node) (cs : Children)
    → is_tree n ≡ true
    → is_forest cs ≡ true
    → is_forest (set_child part n cs) ≡ true
unfolding set_child is_tree get_child
set_child-is_forest part n no_children t h = ground arith
set_child-is_forest part n (child name m rest) t h = ground (
  arith,
  set_child-is_forest part n rest,
  get_child-set_child part name n rest,
  str_eq_iff part name,
  str_eq_iff name part,
)

delete_child-is_forest :
    (part : Str) (cs : Children) → is_forest cs ≡ true → is_forest (delete_child part cs) ≡ true
unfolding delete_child is_tree get_child
delete_child-is_forest part no_children h = refl
delete_child-is_forest part (child name m rest) h =
    ground (arith, delete_child-is_forest part rest, get_child-delete_child part name rest)

child_or_new-is_tree :
    (part : Str) (cs : Children) → is_forest cs ≡ true → is_tree (child_or_new part cs) ≡ true
unfolding is_tree
child_or_new-is_tree part cs h = elim (Option-cases (get_child part cs)) [
  | inl e ↦ rw (e, child_or_new) refl
  | inr (n, e) ↦ rw (e, child_or_new) (get_child-is_tree part cs n h e)
]

pub insert_path-is_tree :
    (ps : List Str) (path : Str) (n : Node)
    → is_tree n ≡ true
    → is_tree (insert_path ps path n) ≡ true
unfolding insert_path is_tree
insert_path-is_tree [] path (node t old cs) h = h
insert_path-is_tree (p ∷ ps) path (node t old cs) h =
    set_child-is_forest p (insert_path ps path (child_or_new p cs)) cs
      (insert_path-is_tree ps path (child_or_new p cs) (child_or_new-is_tree p cs h)) h

remove_memory_path-is_tree :
    (ps : List Str) (n : Node) → is_tree n ≡ true → is_tree (remove_memory_path ps n).1 ≡ true
unfolding remove_memory_path is_tree
remove_memory_path-is_tree [] (node t old cs) h = h
remove_memory_path-is_tree (p ∷ ps) (node t old cs) h = elim (Option-cases (get_child p cs)) [
  | inl e ↦ rw (e, remove_memory_path) h
  | inr (m, e) ↦
      rw (e, remove_memory_path)
        (ground (
          arith,
          set_child-is_forest p (remove_memory_path ps m).1 cs,
          delete_child-is_forest p cs h,
          remove_memory_path-is_tree ps m (get_child-is_tree p cs m h e),
        ))
]

pub remove_path-is_tree :
    (ps : List Str) (n : Node) → is_tree n ≡ true → is_tree (remove_path ps n) ≡ true
unfolding remove_path
remove_path-is_tree ps n h = remove_memory_path-is_tree ps n h

pub find_node-is_tree :
    (ps : List Str) (n : Node) {m : Node}
    → is_tree n ≡ true
    → find_node ps n ≡ some m
    → is_tree m ≡ true
unfolding find_node is_tree
find_node-is_tree [] (node t path cs) h e = ground arith
find_node-is_tree (p ∷ ps) (node t path cs) h e = elim (Option-cases (get_child p cs)) [
  | inl none_there ↦ absurd (ground arith)
  | inr (k, there) ↦ find_node-is_tree ps k (get_child-is_tree p cs k h there) (ground arith)
]
