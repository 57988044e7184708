-- ===== src/Watchtree/Registered.antt =====
-- internal/watchtree/watchtree.go: the tree against the registrations of the watcher.
use fsrecon.Prelude.{
  ◌≡◌, subst, Bool, true, false, not, ◌&&◌, ◌||◌, Str, List, [], ◌∷◌, arith, str_eq, has, get-put,
  get-remove, keys, keep, ok, err, final, Result-cases, inl, inr,
}
use fsrecon.FilePath.{clean}
use fsrecon.Watchtree.{
  Backend, Tree, add, remove_one, remove_each, remove_subtree, is_below, longest_first,
}

-- What a watcher does: a registration that succeeds adds the path, a removal that succeeds drops
-- it, a removal of what is gone already leaves it dropped, and other errors change nothing.
pub record Registers {W E : Type 0} (backend : Backend W E) : Type 0 where
  pub registered : W → Str → Bool
  pub add_ok :
      (p q : Str) (w w' : W)
      → backend.add_watch p w ≡ ok w'
      → registered w' q ≡ str_eq p q || registered w q
  pub add_err :
      (p q : Str) (e : E) (w w' : W)
      → backend.add_watch p w ≡ err e w'
      → registered w' q ≡ registered w q
  pub remove_ok :
      (p q : Str) (w w' : W)
      → backend.remove_watch p w ≡ ok w'
      → registered w' q ≡ not (str_eq p q) && registered w q
  pub remove_gone :
      (p q : Str) (e : E) (w w' : W)
      → backend.remove_watch p w ≡ err e w'
      → backend.is_already_gone e ≡ true
      → registered w' q ≡ not (str_eq p q) && registered w q
  pub remove_err :
      (p q : Str) (e : E) (w w' : W)
      → backend.remove_watch p w ≡ err e w'
      → backend.is_already_gone e ≡ false
      → registered w' q ≡ registered w q

module _ {W E : Type 0} (backend : Backend W E) (laws : Registers backend) where
  -- The tree and the watcher agree on every path.
  abbrev pub IsFaithful : Tree W → Type 0
  IsFaithful t = (q : Str) → has t.watched q ≡ laws.registered t.watcher q

  -- `Add` keeps the tree and the watcher in agreement, also when it fails.
  pub add-IsFaithful :
      (path : Str) (t : Tree W) → IsFaithful t → IsFaithful (final (add backend path t))
  unfolding add
  add-IsFaithful path t h q = elim (Result-cases (backend.add_watch (clean path) t.watcher)) [
    | inl (w, e) ↦
        ground (
          arith,
          h q,
          laws.add_ok (clean path) q t.watcher w e,
          get-put t.watched (clean path) q tt,
        )
    | inr (x, w, e) ↦ ground (arith, h q, laws.add_err (clean path) q x t.watcher w e)
  ]

  remove_one-IsFaithful :
      (path : Str) (t : Tree W)
      → IsFaithful t
      → IsFaithful (final (remove_one backend (λ e. backend.is_already_gone e) path t))
  unfolding remove_one
  remove_one-IsFaithful path t h q = elim (Result-cases (backend.remove_watch path t.watcher)) [
    | inl (w, e) ↦
        ground (arith, h q, laws.remove_ok path q t.watcher w e, get-remove t.watched path q)
    | inr (x, w, e) ↦ ground (
      arith,
      h q,
      laws.remove_gone path q x t.watcher w e,
      laws.remove_err path q x t.watcher w e,
      get-remove t.watched path q,
    )
  ]

  remove_each-IsFaithful :
      (paths : List Str) (t : Tree W)
      → IsFaithful t
      → IsFaithful (final (remove_each backend (λ e. backend.is_already_gone e) paths t))
  unfolding remove_each
  remove_each-IsFaithful [] t h = h
  remove_each-IsFaithful (path ∷ paths) t h =
      let step = remove_one-IsFaithful path t h in
      elim (Result-cases (remove_one backend (λ e. backend.is_already_gone e) path t)) [
        | inl (u, e) ↦
            rw (e) (remove_each-IsFaithful paths u (subst (λ r. IsFaithful (final r)) e step))
        | inr (x, u, e) ↦ rw (e) (subst (λ r. IsFaithful (final r)) e step)
      ]

  -- `RemoveSubtree` keeps the tree and the watcher in agreement, also when it fails half-way.
  pub remove_subtree-IsFaithful :
      (path : Str) (t : Tree W) → IsFaithful t → IsFaithful (final (remove_subtree backend path t))
  unfolding remove_subtree
  remove_subtree-IsFaithful path t h =
      remove_each-IsFaithful (longest_first (keep (is_below (clean path) t) (keys t.watched))) t h
