-- ===== src/Observer/Collected.antt =====
-- What the collector of observer.go announces.
use fsrecon.Prelude.{
  ℕ, ◌≡◌, refl, sym, subst, ◌⊎◌, inl, inr, arith, Bool, true, false, not, ◌&&◌, ◌||◌, Str, str_eq,
  str_eq_iff, Result, ok, err, if◌then◌else◌,
}
use fsrecon.FilePath.{clean}
use fsrecon.Normalize.{RawEvent}
use fsrecon.Scanner.{is_dir, is_symlink}
use fsrecon.Watchtree.{Backend, Tree, is_watched, remove_subtree, add}
use fsrecon.Observer.{
  Observer, Hint, hint_native_change, root_hint_of, enqueue, send_error, set_observer_state,
  degrade,
}
use fsrecon.Observer.Announced.{announced, enqueue-announced}
use fsrecon.Observer.Collect.{
  ObserverError, backend_stopped, symlink_refused, ObserverPorts, CollectConfig, Collector,
  within_observer, passes_filter, path_hint, subtree_hint, has_create, has_remove, has_rename,
  refuses_links, watched, resync_watch_tree, on_tree, announce, announce_path, on_removed,
  resync_root, on_renamed, watch_new, on_created, handle_raw,
}

module _ {E : Type 0} where
  -- A degraded observer announces everything.
  degrade-announced : (e : E) (o : Observer E) (q : Str) → announced q (degrade e o) ≡ true
  unfolding degrade enqueue send_error set_observer_state announced
  degrade-announced e o q = ground (arith, str_eq_iff o.root o.root)

  send_error-announced :
      (e : E) (o : Observer E) (q : Str)
      → announced q o ≡ true
      → announced q (send_error e o) ≡ true
  unfolding send_error announced
  send_error-announced e o q h = ground (arith, h)

module _ {K E : Type 0} (config : CollectConfig) (ports : ObserverPorts E) (backend : Backend K E)
    (q : Str) where
  abbrev Known : Collector K E → Type 0
  Known c = announced q c.observer ≡ true

  -- Is a path to be announced, or was it before?
  abbrev Due : Str → Collector K E → Type 0
  Due path c = announced q c.observer || (str_eq path q && passes_filter config.filter path) ≡ true

  Known-if :
      (b : Bool) (c d : Collector K E)
      → (b ≡ true → Known c)
      → (b ≡ false → Known d)
      → Known (if b then c else d)
  Known-if true c d h k = h refl
  Known-if false c d h k = k refl

  on_tree-Known :
      (f : Collector K E → Collector K E) (c : Collector K E)
      (r : Result (ObserverError E) (Tree K))
      → ((t : Tree K) → Known (f (record c { tree = t })))
      → Known (on_tree config ports backend f c r)
  on_tree-Known f c (ok t) h = h t
  on_tree-Known f c (err e t) h = degrade-announced e c.observer q

  announce-Known :
      (h : Hint) (c : Collector K E)
      → str_eq h.path q || announced q c.observer ≡ true
      → Known (announce config ports backend h c)
  announce-Known h c d = enqueue-announced h c.observer q d

  announce_path-Known :
      (path : Str) (c : Collector K E)
      → Due path c
      → Known (announce_path config ports backend path c)
  announce_path-Known path c d =
      Known-if (passes_filter config.filter path) (announce config ports backend (path_hint path) c)
        c (λ p. announce-Known (path_hint path) c (ground (arith, d, p)))
        (λ p. ground (arith, d, p))

  pick-Known :
      (b : Bool) (f g : Collector K E → Collector K E) (c : Collector K E)
      → Known (f c)
      → Known (g c)
      → Known ((if b then f else g) c)
  pick-Known true f g c h k = h
  pick-Known false f g c h k = k

  -- A hint for the whole path announces whatever was due.
  announce-Due :
      (h : Hint) (path : Str) (c : Collector K E)
      → h.path ≡ path
      → Due path c
      → Known (announce config ports backend h c)
  announce-Due h path c e d =
      announce-Known h c
        (subst (λ p. str_eq p q || announced q c.observer ≡ true) (sym e) (ground (arith, d)))

  on_removed-Known :
      (path : Str) (c : Collector K E) → Due path c → Known (on_removed config ports backend path c)
  unfolding on_removed
  on_removed-Known path c d =
      Known-if (str_eq path c.observer.root) _ _
        (λ _. degrade-announced backend_stopped c.observer q)
        (λ _.
          on_tree-Known
            (if is_watched path c.tree
              then announce config ports backend (subtree_hint path)
              else announce_path config ports backend path)
            c (watched config ports backend (remove_subtree backend path c.tree))
            (λ t.
              pick-Known (is_watched path c.tree)
                (announce config ports backend (subtree_hint path))
                (announce_path config ports backend path) (record c { tree = t })
                (announce-Due (subtree_hint path) path (record c { tree = t }) refl d)
                (announce_path-Known path (record c { tree = t }) d)))

  -- A hint for the root announces everything.
  announce_root-Known :
      (h : Hint) (c : Collector K E)
      → h ≡ root_hint_of c.observer.root h.cause
      → Known (announce config ports backend h c)
  unfolding enqueue announced
  announce_root-Known h c e =
      subst (λ g. Known (announce config ports backend g c)) (sym e)
        (ground (arith, str_eq_iff c.observer.root c.observer.root))

  on_renamed-Known :
      (path : Str) (c : Collector K E) → Known (on_renamed config ports backend path c)
  unfolding on_renamed
  on_renamed-Known path c =
      Known-if (str_eq path c.observer.root) _ _
        (λ _. degrade-announced backend_stopped c.observer q)
        (λ _.
          on_tree-Known (resync_root config ports backend) c
            (watched config ports backend (remove_subtree backend path c.tree))
            (λ t.
              on_tree-Known
                (announce config ports backend (root_hint_of c.observer.root hint_native_change))
                (record c { tree = t }) (resync_watch_tree config ports backend c.observer.root t)
                (λ u.
                  announce_root-Known (root_hint_of c.observer.root hint_native_change)
                    (record c { tree = u }) refl)))

  on_created-Known :
      (path : Str) (c : Collector K E) (o : E ⊎ ℕ)
      → Due path c
      → Known (on_created config ports backend path c o)
  unfolding on_created
  on_created-Known path c (inl e) d = announce_path-Known path c d
  on_created-Known path c (inr mode) d =
      Known-if (is_symlink mode) _ _
        (λ _.
          Known-if (refuses_links config.symlink_policy) _ _
            (λ _. degrade-announced symlink_refused c.observer q)
            (λ _. announce_path-Known path c d))
        (λ _.
          Known-if (is_dir mode) _ _
            (λ _.
              on_tree-Known (watch_new config ports backend path) c
                (watched config ports backend (add backend path c.tree))
                (λ t.
                  on_tree-Known (announce config ports backend (subtree_hint path))
                    (record c { tree = t }) _
                    (λ u. announce-Due (subtree_hint path) path (record c { tree = u }) refl d)))
            (λ _. announce_path-Known path c d))

  -- A raw event is never lost: what was announced before `handleRaw` still is, and so is, if it
  -- lies within the root and the filter passes it, the path of the event, whatever the event is and
  -- whichever call on the filesystem or the native watcher fails.
  pub handle_raw-announced :
      (raw : RawEvent) (c : Collector K E)
      → (announced q c.observer
          || (str_eq (clean raw.path) q
              && within_observer c.observer.root (clean raw.path)
              && passes_filter config.filter (clean raw.path)))
        ≡ true
      → announced q (handle_raw config ports backend raw c).observer ≡ true
  unfolding handle_raw
  handle_raw-announced raw c h =
      let path = clean raw.path in
      Known-if (not (within_observer c.observer.root path)) c _ (λ e. ground (arith, h, e))
        (λ e.
          Known-if (has_remove raw.op) _ _ (λ _. on_removed-Known path c (ground (arith, h)))
            (λ _.
              Known-if (has_rename raw.op) _ _ (λ _. on_renamed-Known path c)
                (λ _.
                  Known-if (config.recursive && has_create raw.op) _ _
                    (λ _. on_created-Known path c (ports.lstat path) (ground (arith, h)))
                    (λ _. announce_path-Known path c (ground (arith, h))))))
