-- ===== src/Observer/Announced.antt =====
-- observer.go: no invalidation is lost between `enqueue` and the channel, as far as its path goes.
use fsrecon.Prelude.{
  ◌≡◌, refl, sym, subst, arith, Bool, true, false, ◌&&◌, ◌||◌, Str, Map, List, [], ◌∷◌, ◌++◌,
  str_eq, str_eq_iff, get, has, get-put, length, ltb, Bool-cases, inl, inr,
}
use fsrecon.Delivery.{incr64}
use fsrecon.Observer.{
  Observer, Hint, try_send, sent_root, send_pending, flush, escalate_root, enqueue, is_subtree,
}
use fsrecon.Observer.Bounds.{IsBounded, is_keyed, flush-root, flush-pending}

-- Does a hint speak of a path: by itself, or for the whole root?
abbrev pub speaks_of : Str → Str → Hint → Bool
speaks_of root p h = str_eq h.path p || (str_eq h.path root && is_subtree h.scope)

unfoldable pub any_speaks : Str → Str → List Hint → Bool
any_speaks root p [] = false
any_speaks root p (h ∷ hints) = speaks_of root p h || any_speaks root p hints

-- Is a path announced: by a hint in the channel, or by one that waits?
unfoldable pub announced : {E : Type 0} → Str → Observer E → Bool
announced p o = o.root_pending || has o.pending p || any_speaks o.root p o.hints

any_speaks-append :
    (root p : Str) (xs ys : List Hint)
    → any_speaks root p (xs ++ ys) ≡ any_speaks root p xs || any_speaks root p ys
unfolding any_speaks
any_speaks-append root p [] ys = refl
any_speaks-append root p (x ∷ xs) ys = ground (arith, any_speaks-append root p xs ys)

module _ {E : Type 0} where
  -- A hint's path is announced once it is enqueued, and what was announced before still is.
  pub enqueue-announced :
      (h : Hint) (o : Observer E) (p : Str)
      → str_eq h.path p || announced p o ≡ true
      → announced p (enqueue h o) ≡ true
  unfolding enqueue escalate_root announced
  enqueue-announced h o p e = ground (arith, get-put o.pending h.path p h, str_eq_iff h.path p)

  send_pending-announced :
      (m : Map Hint) (o : Observer E) (p : Str)
      → is_keyed m ≡ true
      → (o.root_pending || has m p || any_speaks o.root p o.hints) ≡ true
      → announced p (send_pending m o) ≡ true
  unfolding send_pending try_send announced is_keyed get any_speaks
  send_pending-announced [] o p k e = ground arith
  send_pending-announced ((path, h) ∷ m) o p k e =
      elim (Bool-cases (ltb (length o.hints) o.hint_buffer)) [
        | inl free ↦
            let o' : Observer E = record o {
              hints = o.hints ++ h ∷ [];
              emitted = incr64 o.emitted;
            } in
            rw (free, send_pending)
              (send_pending-announced m o' p (ground arith) (
                ground (
                  arith,
                  any_speaks-append o.root p o.hints (h ∷ []),
                  str_eq_iff h.path path,
                  str_eq_iff path p,
                )))
        | inr full ↦ rw (full, send_pending) (ground arith)
      ]

  -- A flush loses no announcement: each hint goes to the channel or stays.
  pub flush-announced :
      (o : Observer E) (p : Str) → IsBounded o → announced p o ≡ true → announced p (flush o) ≡ true
  flush-announced o p b e = elim (Bool-cases o.root_pending) [
    | inl waits ↦
        subst (λ u. announced p u ≡ true) (sym (flush-root o waits)) (root_sent o b waits e)
    | inr n ↦
        subst (λ u. announced p u ≡ true) (sym (flush-pending o n))
          (send_pending-announced o.pending o p b.keyed (unfold announced in e))
  ]
    where
      root_sent :
          (o : Observer E)
          → IsBounded o
          → o.root_pending ≡ true
          → announced p o ≡ true
          → announced p (sent_root (try_send o.root_hint o)) ≡ true
      root_sent o b waits e =
          unfold try_send announced any_speaks in
          ground (
            arith,
            b.rooted,
            b.wide,
            str_eq_iff o.root_hint.path o.root,
            any_speaks-append o.root p o.hints (o.root_hint ∷ []),
          )
