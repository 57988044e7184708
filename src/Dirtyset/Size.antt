-- ===== src/Dirtyset/Size.antt =====
-- internal/dirtyset/dirtyset.go: the count beside the tree, and what `Drain` hands over.
use fsrecon.Prelude.{
  ℕ, ◌+◌, ◌≡◌, refl, ◌∙◌, sym, Bool, true, false, ◌&&◌, Str, Option, none, some, List, [], ◌∷◌,
  arith, length, length-append, length-sort, if◌then◌else◌, Option-cases, inl, inr,
}
use fsrecon.FilePath.{join_path}
use fsrecon.Dirtyset.{
  Node, node, Children, no_children, child, get_child, set_child, child_or_new, count_dirty,
  count_children, mark, Set, new, add, relative_parts, len, collect, collect_children, drain,
}
use fsrecon.Dirtyset.Coverage.{covers, covers-clean_node}

abbrev is_leaf : Children → Bool
is_leaf no_children = true
is_leaf (child name n rest) = false

-- A dirty node has nothing below it.
unfoldable mutual
  pub is_minimal : Node → Bool
  is_minimal (node dirty cs) = (if dirty then is_leaf cs else true) && are_minimal cs

  pub are_minimal : Children → Bool
  are_minimal no_children = true
  are_minimal (child name n rest) = is_minimal n && are_minimal rest

abbrev count_of : Option Node → ℕ
count_of none = 0
count_of (some n) = count_dirty n

count-set_child :
    (p : Str) (m : Node) (cs : Children)
    → count_children (set_child p m cs) + count_of (get_child p cs)
      ≡ count_children cs + count_dirty m
unfolding set_child get_child count_dirty
count-set_child p m no_children = omega arith
count-set_child p m (child name n rest) = ground (arith, count-set_child p m rest)

-- Marking a place counts it, and no longer those that it replaces.
count-mark :
    (ps : List Str) (n : Node) (k : ℕ) (t : Node)
    → mark ps n ≡ some (k, t)
    → count_dirty t + k ≡ count_dirty n + 1
unfolding mark count_dirty
count-mark [] (node true cs) k t e = cc
count-mark [] (node false cs) k t e = ground arith
count-mark (p ∷ ps) (node true cs) k t e = cc
count-mark (p ∷ ps) (node false cs) k t e = elim (Option-cases (mark ps (child_or_new p cs))) [
  | inl stop ↦ absurd (ground arith)
  | inr ((j, m), go) ↦
      ground (arith, count-mark ps (child_or_new p cs) j m go, count-set_child p m cs)
]

get_child-is_minimal :
    (p : Str) (cs : Children) → are_minimal cs ≡ true → is_minimal (child_or_new p cs) ≡ true
unfolding get_child is_minimal
get_child-is_minimal p no_children h = refl
get_child-is_minimal p (child name n rest) h = ground (arith, get_child-is_minimal p rest)

set_child-are_minimal :
    (p : Str) (m : Node) (cs : Children)
    → is_minimal m ≡ true
    → are_minimal cs ≡ true
    → are_minimal (set_child p m cs) ≡ true
unfolding set_child is_minimal
set_child-are_minimal p m no_children h k = ground arith
set_child-are_minimal p m (child name n rest) h k = ground (arith, set_child-are_minimal p m rest)

mark-is_minimal :
    (ps : List Str) (n : Node) (k : ℕ) (t : Node)
    → is_minimal n ≡ true
    → mark ps n ≡ some (k, t)
    → is_minimal t ≡ true
unfolding mark is_minimal
mark-is_minimal [] (node true cs) k t h e = cc
mark-is_minimal [] (node false cs) k t h e = ground arith
mark-is_minimal (p ∷ ps) (node true cs) k t h e = cc
mark-is_minimal (p ∷ ps) (node false cs) k t h e =
    elim (Option-cases (mark ps (child_or_new p cs))) [
      | inl stop ↦ absurd (ground arith)
      | inr ((j, m), go) ↦ ground (
        arith,
        mark-is_minimal ps (child_or_new p cs) j m (get_child-is_minimal p cs (ground arith)) go,
        set_child-are_minimal p m cs,
      )
    ]

mutual
  unfolding collect is_minimal count_dirty

  length-collect :
      (n : Node) (path : Str) → is_minimal n ≡ true → length (collect n path) ≡ count_dirty n
  length-collect (node true no_children) path h = omega arith
  length-collect (node true (child name n rest)) path h = cc
  length-collect (node false cs) path h = omega (arith, length-collect_children cs path h)

  length-collect_children :
      (cs : Children) (path : Str)
      → are_minimal cs ≡ true
      → length (collect_children cs path) ≡ count_children cs
  length-collect_children no_children path h = refl
  length-collect_children (child name n rest) path h = omega (
    arith,
    length-append (collect n (join_path path name)) (collect_children rest path),
    length-collect n (join_path path name) (ground arith),
    length-collect_children rest path (ground arith),
  )

-- The count is that of the dirty nodes, and no dirty node lies below another.
pub record IsCounted (s : Set) : Type 0 where
  pub minimal : is_minimal s.tree ≡ true
  pub counted : s.size ≡ count_dirty s.tree

new-IsCounted : (root : Str) → IsCounted (new root)
unfolding new is_minimal count_dirty
new-IsCounted root = record { minimal = refl; counted = refl }

add-IsCounted : (path : Str) (s : Set) → IsCounted s → IsCounted (add path s).1
unfolding add
add-IsCounted path s h = elim (Option-cases (mark (relative_parts s.root path) s.tree)) [
  | inl e ↦ rw (e, add) h
  | inr ((k, t), e) ↦
      rw (e, add)
        (record {
          minimal = mark-is_minimal (relative_parts s.root path) s.tree k t h.minimal e;
          counted = ground (arith, count-mark (relative_parts s.root path) s.tree k t e, h.counted);
        })
]

unfoldable pub add_each : List Str → Set → Set
add_each [] s = s
add_each (path ∷ paths) s = add_each paths (add path s).1

add_each-IsCounted : (paths : List Str) (s : Set) → IsCounted s → IsCounted (add_each paths s)
unfolding add_each
add_each-IsCounted [] s h = h
add_each-IsCounted (path ∷ paths) s h =
    add_each-IsCounted paths (add path s).1 (add-IsCounted path s h)

-- After any additions `Len` is the number of directories that `Drain` hands over, and the drained
-- set is empty: its length is zero and it covers no place.
pub drain_all :
    (root : Str) (paths : List Str)
    → let s = add_each paths (new root) in
      (length (drain s).0 ≡ len s)
      × (len (drain s).1 ≡ 0)
      × ((qs : List Str) → covers qs (drain s).1.tree ≡ false)
unfolding drain
drain_all root paths =
    let s = add_each paths (new root) in
    let h = add_each-IsCounted paths (new root) (new-IsCounted root) in
    (
      length-sort (collect s.tree s.root) ∙ length-collect s.tree s.root h.minimal ∙ sym h.counted,
      refl,
      covers-clean_node,
    )
