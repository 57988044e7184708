-- ===== src/Dirtyset.antt =====
-- internal/dirtyset/dirtyset.go: a set of directories to reconcile, kept as a tree in which a
-- dirty node stands for its whole subtree. A nil map of children is an empty one, and a child
-- that is not there is a clean node without children.
pub mod Coverage
pub mod Size
use fsrecon.Prelude.{
  ℕ, ◌+◌, ◌-◌, Bool, true, false, not, ◌&&◌, ◌||◌, Str, Option, none, some, List, [], ◌∷◌, ◌++◌,
  str_eq, sort, if◌then◌else◌,
}
use fsrecon.FilePath.{clean, rel, split, within, starts_with, join_path, dot, dot_dot}

mutual
  pub data Node : Type 0 where
    node : Bool → Children → Node

  pub data Children : Type 0 where
    no_children : Children
    child : Str → Node → Children → Children

abbrev pub clean_node : Node
clean_node = node false no_children

unfoldable pub get_child : Str → Children → Option Node
get_child part no_children = none
get_child part (child name n rest) = if str_eq name part then some n else get_child part rest

unfoldable pub set_child : Str → Node → Children → Children
set_child part m no_children = child part m no_children
set_child part m (child name n rest) =
    if str_eq name part then child name m rest else child name n (set_child part m rest)

abbrev pub child_or_new : Str → Children → Node
child_or_new part cs = elim (get_child part cs) [ none ↦ clean_node | some n ↦ n ]

abbrev pub one_if : Bool → ℕ
one_if true = 1
one_if false = 0

unfoldable mutual
  pub count_dirty : Node → ℕ
  count_dirty (node dirty cs) = one_if dirty + count_children cs

  pub count_children : Children → ℕ
  count_children no_children = 0
  count_children (child name n rest) = count_dirty n + count_children rest

abbrev pub rebuild : Bool → Str → Children → Option (ℕ × Node) → Option (ℕ × Node)
rebuild dirty part cs none = none
rebuild dirty part cs (some (removed, m)) = some (removed, node dirty (set_child part m cs))

-- The descent of `Add` and its end: `none` where it meets a dirty node and returns false (it has
-- made no node before that), else how many dirty nodes the new one replaces, and the tree.
unfoldable pub mark : List Str → Node → Option (ℕ × Node)
unfolding count_dirty
mark [] (node true cs) = none
mark [] (node false cs) = some (count_dirty (node false cs), node true no_children)
mark (part ∷ parts) (node true cs) = none
mark (part ∷ parts) (node false cs) = rebuild false part cs (mark parts (child_or_new part cs))

pub record Set : Type 0 where
  pub root : Str
  pub tree : Node
  pub size : ℕ

-- `New`
unfoldable pub new : Str → Set
new root = record { root = clean root; tree = clean_node; size = 0 }

abbrev up : Str
up = b'.' ∷ b'.' ∷ b'/' ∷ []

abbrev inward : Option Str → Str
inward none = dot
inward (some r) = if str_eq r dot_dot || starts_with r up then dot else r

abbrev pieces : Str → List Str
pieces r = if str_eq r dot then [] else split r

-- The elements of a path below the root; none for the root itself and for a path outside.
unfoldable pub relative_parts : Str → Str → List Str
relative_parts root path =
    pieces (inward (rel root (if within root (clean path) then clean path else root)))

abbrev pub marked : Set → Option (ℕ × Node) → Bool × Set
marked s none = (false, s)
marked s (some (removed, t)) = (true, record s { tree = t; size = s.size + 1 - removed })

-- `Add`: did the set change, and the set. The size does not fall below zero, since the dirty
-- nodes that are removed are counted in it.
unfoldable pub add : Str → Set → Bool × Set
unfolding mark
add path s = marked s (mark (relative_parts s.root path) s.tree)

-- `Len`
abbrev pub len : Set → ℕ
len s = s.size

abbrev pub or_below : Bool → Str → List Str → List Str
or_below true path below = path ∷ []
or_below false path below = below

-- `collect`
unfoldable mutual
  pub collect : Node → Str → List Str
  collect (node dirty cs) path = or_below dirty path (collect_children cs path)

  pub collect_children : Children → Str → List Str
  collect_children no_children path = []
  collect_children (child name n rest) path =
      collect n (join_path path name) ++ collect_children rest path

-- `Drain`: the dirty directories in order, and the set emptied.
unfoldable pub drain : Set → List Str × Set
unfolding collect
drain s = (sort (collect s.tree s.root), record s { tree = clean_node; size = 0 })
