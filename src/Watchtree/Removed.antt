-- ===== src/Watchtree/Removed.antt =====
-- internal/watchtree/watchtree.go: which registrations `Sync` and `RemoveSubtree` drop.
use fsrecon.Prelude.{
  ◌≡◌, refl, ◌∙◌, Bool, not, ◌&&◌, ◌||◌, Str, List, [], ◌∷◌, arith, str_eq, str_eq_iff, has,
  get-remove, keys, keep, elem, elem-keys, ok, Result-cases, inl, inr,
}
use fsrecon.FilePath.{clean}
use fsrecon.Watchtree.{
  Backend, Tree, remove_one, remove_each, remove_subtree, is_below, longest_first, insert_longest,
}

elem-insert_longest :
    (q p : Str) (ps : List Str) → elem q (insert_longest p ps) ≡ str_eq p q || elem q ps
unfolding insert_longest elem
elem-insert_longest q p [] = refl
elem-insert_longest q p (r ∷ ps) = ground (arith, elem-insert_longest q p ps)

elem-longest_first : (q : Str) (ps : List Str) → elem q (longest_first ps) ≡ elem q ps
unfolding longest_first elem
elem-longest_first q [] = refl
elem-longest_first q (p ∷ ps) =
    ground (arith, elem-insert_longest q p (longest_first ps), elem-longest_first q ps)

elem-keep : (f : Str → Bool) (q : Str) (ps : List Str) → elem q (keep f ps) ≡ elem q ps && f q
unfolding elem
elem-keep f q [] = refl
elem-keep f q (p ∷ ps) = ground (arith, elem-keep f q ps, str_eq_iff p q)

module _ {W E : Type 0} (backend : Backend W E) where
  has-remove_one :
      (passes : E → Bool) (path : Str) (t u : Tree W) (q : Str)
      → remove_one backend passes path t ≡ ok u
      → has u.watched q ≡ has t.watched q && not (str_eq path q)
  unfolding remove_one
  has-remove_one passes path t u q h = elim (Result-cases (backend.remove_watch path t.watcher)) [
    | inl (w, e) ↦ ground (arith, get-remove t.watched path q)
    | inr (x, w, e) ↦ ground (arith, get-remove t.watched path q)
  ]

  -- What is removed without an error is gone, and nothing else is.
  has-remove_each :
      (passes : E → Bool) (paths : List Str) (t t' : Tree W) (q : Str)
      → remove_each backend passes paths t ≡ ok t'
      → has t'.watched q ≡ has t.watched q && not (elem q paths)
  unfolding remove_each elem
  has-remove_each passes [] t t' q h = ground arith
  has-remove_each passes (path ∷ paths) t t' q h =
      elim (Result-cases (remove_one backend passes path t)) [
        | inl (u, e) ↦
            ground (arith, has-remove_one passes path t u q e, has-remove_each passes paths u t' q)
        | inr (x, u, e) ↦ absurd (ground arith)
      ]

  -- A successful `RemoveSubtree` drops exactly the directories below the path, never the root.
  pub remove_subtree_exact :
      (path : Str) (t t' : Tree W) (q : Str)
      → remove_subtree backend path t ≡ ok t'
      → has t'.watched q ≡ has t.watched q && not (is_below (clean path) t q)
  unfolding remove_subtree
  remove_subtree_exact path t t' q h =
      has-remove_each (λ e. backend.is_already_gone e)
        (longest_first (keep (is_below (clean path) t) (keys t.watched))) t t' q h
      ∙ ground (
        arith,
        elem-longest_first q (keep (is_below (clean path) t) (keys t.watched)),
        elem-keep (is_below (clean path) t) q (keys t.watched),
        elem-keys t.watched q,
      )
