-- ===== src/Dirtyset/Coverage.antt =====
-- internal/dirtyset/dirtyset.go as a set of subtrees: what it covers.
use fsrecon.Prelude.{
  ℕ, ◌≡◌, refl, subst, Bool, true, false, not, ◌&&◌, ◌||◌, Str, none, some, is_some, List, [], ◌∷◌,
  arith, str_eq, str_eq_iff, if◌then◌else◌, Option-cases, inl, inr,
}
use fsrecon.Dirtyset.{
  Node, node, Children, no_children, child, clean_node, get_child, set_child, child_or_new, mark,
  Set, add, relative_parts,
}

abbrev pub children_of : Node → Children
children_of (node dirty cs) = cs

abbrev pub is_dirty : Node → Bool
is_dirty (node dirty cs) = dirty

-- Does the tree cover a place: is one of the nodes on the way to it dirty?
unfoldable pub covers : List Str → Node → Bool
covers [] n = is_dirty n
covers (p ∷ ps) n =
    is_dirty n || (elim (get_child p (children_of n)) [ none ↦ false | some m ↦ covers ps m ])

unfoldable pub begins : List Str → List Str → Bool
begins [] qs = true
begins (p ∷ ps) [] = false
begins (p ∷ ps) (q ∷ qs) = str_eq p q && begins ps qs

get_child-set_child :
    (k j : Str) (m : Node) (cs : Children)
    → get_child j (set_child k m cs) ≡ (if str_eq k j then some m else get_child j cs)
unfolding get_child set_child
get_child-set_child k j m no_children = refl
get_child-set_child k j m (child name n rest) =
    ground
      (arith, get_child-set_child k j m rest, str_eq_iff name k, str_eq_iff name j, str_eq_iff k j)

pub covers-clean_node : (qs : List Str) → covers qs clean_node ≡ false
unfolding covers get_child
covers-clean_node [] = refl
covers-clean_node (q ∷ qs) = refl

-- `mark` stops exactly where the place is covered already.
mark-covers : (ps : List Str) (n : Node) → is_some (mark ps n) ≡ not (covers ps n)
unfolding mark covers
mark-covers [] (node true cs) = refl
mark-covers [] (node false cs) = refl
mark-covers (p ∷ ps) (node true cs) = refl
mark-covers (p ∷ ps) (node false cs) =
    ground (arith, mark-covers ps (child_or_new p cs), covers-clean_node ps)

covers-mark :
    (ps qs : List Str) (n : Node) (k : ℕ) (t : Node)
    → mark ps n ≡ some (k, t)
    → covers qs t ≡ begins ps qs || covers qs n
unfolding mark covers begins
covers-mark [] [] (node true cs) k t e = cc
covers-mark [] [] (node false cs) k t e = ground arith
covers-mark [] (q ∷ qs) (node true cs) k t e = cc
covers-mark [] (q ∷ qs) (node false cs) k t e = ground arith
covers-mark (p ∷ ps) qs (node true cs) k t e = cc
covers-mark (p ∷ ps) qs (node false cs) k t e = elim (Option-cases (mark ps (child_or_new p cs))) [
  | inl stop ↦ absurd (ground arith)
  | inr ((j, m), go) ↦
      subst (λ u. covers qs u ≡ begins (p ∷ ps) qs || covers qs (node false cs)) (ground arith)
        (step qs m (λ rs. covers-mark ps rs (child_or_new p cs) j m go))
]
  where
    step :
        (rs : List Str) (m : Node)
        → ((us : List Str) → covers us m ≡ begins ps us || covers us (child_or_new p cs))
        → covers rs (node false (set_child p m cs))
          ≡ begins (p ∷ ps) rs || covers rs (node false cs)
    step [] m ih = refl
    step (r ∷ rs) m ih =
        ground (arith, get_child-set_child p r m cs, ih rs, str_eq_iff p r, covers-clean_node rs)

-- What lies below a covered place is covered.
covers-below :
    (ps qs : List Str) (n : Node) → covers ps n ≡ true → begins ps qs ≡ true → covers qs n ≡ true
unfolding covers begins
covers-below [] [] n h b = h
covers-below [] (q ∷ qs) n h b = ground arith
covers-below (p ∷ ps) [] n h b = cc
covers-below (p ∷ ps) (q ∷ qs) n h b = elim (Option-cases (get_child p (children_of n))) [
  | inl e ↦ ground (arith, str_eq_iff p q)
  | inr (m, e) ↦ ground (arith, covers-below ps qs m, str_eq_iff p q)
]

-- `Add` reports a change exactly when the place was not covered, and the set then covers the
-- subtree of the place besides what it covered before.
pub add-covers :
    (s : Set) (path : Str) (qs : List Str)
    → let parts = relative_parts s.root path in
      ((add path s).0 ≡ not (covers parts s.tree))
      × (covers qs (add path s).1.tree ≡ begins parts qs || covers qs s.tree)
unfolding add
add-covers s path qs = elim (Option-cases (mark (relative_parts s.root path) s.tree)) [
  | inl e ↦
      let covered = mark-covers (relative_parts s.root path) s.tree in
      rw (e, add)
        (ground arith, ground (arith, covers-below (relative_parts s.root path) qs s.tree))
  | inr ((k, t), e) ↦
      let free = mark-covers (relative_parts s.root path) s.tree in
      rw (e, add) (ground arith, covers-mark (relative_parts s.root path) qs s.tree k t e)
]
