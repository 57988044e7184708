-- ===== src/Store/Tree.antt =====
-- `memoryPathNode` of store.go: a tree of path elements. A nil map of children is an empty one.
pub mod Laws
pub mod Collected
use fsrecon.Prelude.{
  Bool, true, false, not, ◌&&◌, Str, Option, none, some, List, [], ◌∷◌, ◌++◌, str_eq, if◌then◌else◌,
}

mutual
  pub data Node : Type 0 where
    node : Bool → Str → Children → Node

  pub data Children : Type 0 where
    no_children : Children
    child : Str → Node → Children → Children

abbrev pub empty_node : Node
empty_node = node false [] no_children

unfoldable pub get_child : Str → Children → Option Node
get_child part no_children = none
get_child part (child name n rest) = if str_eq name part then some n else get_child part rest

unfoldable pub set_child : Str → Node → Children → Children
set_child part m no_children = child part m no_children
set_child part m (child name n rest) =
    if str_eq name part then child name m rest else child name n (set_child part m rest)

unfoldable pub delete_child : Str → Children → Children
delete_child part no_children = no_children
delete_child part (child name n rest) =
    let others = delete_child part rest in if str_eq name part then others else child name n others

abbrev pub is_empty : Children → Bool
is_empty no_children = true
is_empty (child name n rest) = false

abbrev pub child_or_new : Str → Children → Node
child_or_new part cs = elim (get_child part cs) [ none ↦ empty_node | some n ↦ n ]

-- `insert`
unfoldable pub insert_path : List Str → Str → Node → Node
insert_path [] path (node terminal old cs) = node true path cs
insert_path (part ∷ parts) path (node terminal old cs) =
    node terminal old (set_child part (insert_path parts path (child_or_new part cs)) cs)

abbrev pub children_of : Node → Children
children_of (node terminal path cs) = cs

-- `find`
unfoldable pub find_node : List Str → Node → Option Node
find_node [] n = some n
find_node (part ∷ parts) n = elim (get_child part (children_of n)) [
  | none ↦ none
  | some m ↦ find_node parts m
]

-- Is a node free to be deleted: no path ends in it, and it has no children?
abbrev pub is_bare : Node → Bool
is_bare (node terminal path cs) = not terminal && is_empty cs

-- A child after the removal below it: dropped if that reported true.
abbrev pub put_back : Str → Bool × Node → Children → Children
put_back part (bare, n) cs = if bare then delete_child part cs else set_child part n cs

-- `removeMemoryPath`: is the node left bare, and the node.
unfoldable pub remove_memory_path : List Str → Node → Bool × Node
remove_memory_path [] (node terminal path cs) = (is_empty cs, node false [] cs)
remove_memory_path (part ∷ parts) (node terminal path cs) = elim (get_child part cs) [
  | none ↦ (false, node terminal path cs)
  | some m ↦
      let cs' = put_back part (remove_memory_path parts m) cs in
      (not terminal && is_empty cs', node terminal path cs')
]

-- `remove`
unfoldable pub remove_path : List Str → Node → Node
unfolding remove_memory_path
remove_path parts n = (remove_memory_path parts n).1

abbrev pub own_path : Bool → Str → List Str
own_path true path = path ∷ []
own_path false path = []

-- `collect`, in the order in which the maps of children are visited.
unfoldable mutual
  pub collect : Node → List Str
  collect (node terminal path cs) = own_path terminal path ++ collect_children cs

  pub collect_children : Children → List Str
  collect_children no_children = []
  collect_children (child name n rest) = collect n ++ collect_children rest
