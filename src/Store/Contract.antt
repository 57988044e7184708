-- ===== src/Store/Contract.antt =====
-- store.go: the entries and the tree of paths agree, and a walk visits exactly the entries of its
-- subtree.
use fsrecon.Prelude.{
  ◌≡◌, refl, ◌∙◌, sym, Bool, true, false, ◌&&◌, Str, some, List, [], ◌∷◌, ◌++◌, arith, elem,
  IsSorted, IsDistinct, elem-sort, sort-IsSorted, sort-IsDistinct, str_eq, str_eq_iff, get, has,
  get-put, get-remove, Bool-cases, Option-cases, inl, inr, All,
}
use fsrecon.State.{FileState}
use fsrecon.FilePath.{clean}
use fsrecon.Store.{
  MemoryStore, new_memory_store, put_entry, delete_entry, put_entries, delete_entries, scope_paths,
}
use fsrecon.Store.Paths.{path_parts, path_parts-injective}
use fsrecon.Store.Tree.{Node, empty_node, find_node, collect, get_child}
use fsrecon.Store.Tree.Laws.{
  parts_eq_iff, path_at, path_at-insert_path, path_at-remove_path, path_at-append, is_tree,
  insert_path-is_tree, remove_path-is_tree, find_node-is_tree,
}
use fsrecon.Store.Tree.Collected.{collect-path_at, path_at-collect, collect-IsDistinct, IsPlaced}

abbrev pub IsClean : Str → Type 0
IsClean p = clean p ≡ p

-- Each entry stands at the elements of its clean path, and nothing else does.
pub record IsConsistent (s : MemoryStore) : Type 0 where
  pub tree : is_tree s.paths ≡ true
  pub stored : (p : Str) → has s.entries p ≡ true → path_at (path_parts p) s.paths ≡ some p
  pub held : (qs : List Str) (x : Str) → path_at qs s.paths ≡ some x → has s.entries x ≡ true
  pub placed : (qs : List Str) (x : Str) → path_at qs s.paths ≡ some x → path_parts x ≡ qs
  pub cleaned : (p : Str) → has s.entries p ≡ true → IsClean p

clean_unique : (p q : Str) → IsClean p → IsClean q → path_parts p ≡ path_parts q → p ≡ q
clean_unique p q c d h = sym c ∙ path_parts-injective p q h ∙ d

pub new_memory_store-IsConsistent : IsConsistent new_memory_store
unfolding is_tree get path_at find_node get_child
new_memory_store-IsConsistent = record {
  tree = refl;
  stored = λ p h. cc;
  held = λ qs x e. absurd (never qs x e);
  placed = λ qs x e. absurd (never qs x e);
  cleaned = λ p h. cc;
}
  where
    never : (qs : List Str) (x : Str) → path_at qs empty_node ≡ some x → ⊥
    never [] x e = cc
    never (q ∷ qs) x e = cc

module _ (s : MemoryStore) (ok_s : IsConsistent s) where
  pub put_entry-IsConsistent :
      (state : FileState) → IsClean state.path → IsConsistent (put_entry state s)
  unfolding put_entry
  put_entry-IsConsistent state c = elim (Bool-cases (has s.entries state.path)) [
    | inl old ↦ rw old (record {
      tree = ok_s.tree;
      stored = λ p h.
          ok_s.stored p
            (ground (arith, get-put s.entries state.path p state, str_eq_iff state.path p));
      held = λ qs x e. ground (arith, get-put s.entries state.path x state, ok_s.held qs x e);
      placed = ok_s.placed;
      cleaned = λ p h.
          ok_s.cleaned p
            (ground (arith, get-put s.entries state.path p state, str_eq_iff state.path p));
    })
    | inr new ↦ rw new (record {
      tree = insert_path-is_tree (path_parts state.path) state.path s.paths ok_s.tree;
      stored = λ p h. ground (
        arith,
        path_at-insert_path (path_parts state.path) (path_parts p) state.path s.paths,
        parts_eq_iff (path_parts state.path) (path_parts p),
        get-put s.entries state.path p state,
        str_eq_iff state.path p,
        ok_s.stored p,
        ok_s.cleaned p,
        clean_unique state.path p c,
      );
      held = λ qs x e. ground (
        arith,
        path_at-insert_path (path_parts state.path) qs state.path s.paths,
        get-put s.entries state.path x state,
        str_eq_iff state.path x,
        ok_s.held qs x,
      );
      placed = λ qs x e. ground (
        arith,
        path_at-insert_path (path_parts state.path) qs state.path s.paths,
        parts_eq_iff (path_parts state.path) qs,
        ok_s.placed qs x,
      );
      cleaned = λ p h.
          ground
            (arith, get-put s.entries state.path p state, str_eq_iff state.path p, ok_s.cleaned p);
    })
  ]

  pub delete_entry-IsConsistent : (path : Str) → IsClean path → IsConsistent (delete_entry path s)
  unfolding delete_entry
  delete_entry-IsConsistent path c = record {
    tree = remove_path-is_tree (path_parts path) s.paths ok_s.tree;
    stored = λ p h. ground (
      arith,
      path_at-remove_path (path_parts path) (path_parts p) s.paths,
      parts_eq_iff (path_parts path) (path_parts p),
      get-remove s.entries path p,
      str_eq_iff path p,
      ok_s.stored p,
      ok_s.cleaned p,
      clean_unique path p c,
    );
    held = λ qs x e. ground (
      arith,
      path_at-remove_path (path_parts path) qs s.paths,
      parts_eq_iff (path_parts path) qs,
      get-remove s.entries path x,
      str_eq_iff path x,
      ok_s.held qs x,
      ok_s.placed qs x,
    );
    placed = λ qs x e.
        ground (arith, path_at-remove_path (path_parts path) qs s.paths, ok_s.placed qs x);
    cleaned = λ p h. ground (arith, get-remove s.entries path p, ok_s.cleaned p);
  }

pub put_entries-IsConsistent :
    (states : List FileState) (s : MemoryStore)
    → IsConsistent s
    → All (λ state. IsClean state.path) states
    → IsConsistent (put_entries states s)
unfolding put_entries
put_entries-IsConsistent [] s h k = h
put_entries-IsConsistent (state ∷ states) s h k =
    put_entries-IsConsistent states (put_entry state s) (put_entry-IsConsistent s h state k.0) k.1

pub delete_entries-IsConsistent :
    (paths : List Str) (s : MemoryStore)
    → IsConsistent s
    → All IsClean paths
    → IsConsistent (delete_entries paths s)
unfolding delete_entries
delete_entries-IsConsistent [] s h k = h
delete_entries-IsConsistent (path ∷ paths) s h k =
    delete_entries-IsConsistent paths (delete_entry path s) (delete_entry-IsConsistent s h path k.0)
      k.1

-- Does a list of elements begin with another?
unfoldable pub begins : List Str → List Str → Bool
begins [] qs = true
begins (p ∷ ps) [] = false
begins (p ∷ ps) (q ∷ qs) = str_eq p q && begins ps qs

begins-append : (ps qs : List Str) → begins ps (ps ++ qs) ≡ true
unfolding begins
begins-append [] qs = refl
begins-append (p ∷ ps) qs = ground (arith, begins-append ps qs, str_eq_iff p p)

begins-split : (ps qs : List Str) → begins ps qs ≡ true → (rs : List Str) × (qs ≡ ps ++ rs)
unfolding begins
begins-split [] qs h = (qs, refl)
begins-split (p ∷ ps) [] h = cc
begins-split (p ∷ ps) (q ∷ qs) h =
    let (rs, e) = begins-split ps qs (ground arith) in (rs, ground (arith, str_eq_iff p q))

module _ (scope : Str) (s : MemoryStore) (ok_s : IsConsistent s) where
  scope_paths-below :
      (p : Str)
      → elem p (scope_paths scope s) ≡ true
      → (has s.entries p ≡ true) × (begins (path_parts scope) (path_parts p) ≡ true)
  unfolding scope_paths elem
  scope_paths-below p h = elim (Option-cases (find_node (path_parts scope) s.paths)) [
    | inl e ↦ absurd (ground arith)
    | inr (top, e) ↦
        let (qs, f) =
          collect-path_at top p (find_node-is_tree (path_parts scope) s.paths ok_s.tree e)
            (ground (arith, elem-sort p (collect top))) in
        let g : path_at (path_parts scope ++ qs) s.paths ≡ some p =
          ground (arith, path_at-append (path_parts scope) qs s.paths) in
        (
          ok_s.held (path_parts scope ++ qs) p g,
          ground (
            arith,
            ok_s.placed (path_parts scope ++ qs) p g,
            begins-append (path_parts scope) qs,
          ),
        )
  ]

  below-scope_paths :
      (p : Str)
      → has s.entries p ≡ true
      → begins (path_parts scope) (path_parts p) ≡ true
      → elem p (scope_paths scope s) ≡ true
  unfolding scope_paths
  below-scope_paths p h b =
      let (qs, e) = begins-split (path_parts scope) (path_parts p) b in
      let f = path_at-append (path_parts scope) qs s.paths in
      let g = ok_s.stored p h in
      elim (Option-cases (find_node (path_parts scope) s.paths)) [
        | inl e' ↦ absurd (ground arith)
        | inr (top, e') ↦
            rw (e', scope_paths)
              (elem-sort p (collect top) ∙ path_at-collect top qs p (ground arith))
      ]

append-cancel : (ps qs rs : List Str) → ps ++ qs ≡ ps ++ rs → qs ≡ rs
append-cancel [] qs rs h = h
append-cancel (p ∷ ps) qs rs h = append-cancel ps qs rs (ground arith)

Bool-ext : (a b : Bool) → (a ≡ true → b ≡ true) → (b ≡ true → a ≡ true) → a ≡ b
Bool-ext true b f g = sym (f refl)
Bool-ext false true f g = g refl
Bool-ext false false f g = refl

module _ (scope : Str) (s : MemoryStore) (ok_s : IsConsistent s) where
  top-IsPlaced : (top : Node) → find_node (path_parts scope) s.paths ≡ some top → IsPlaced top
  top-IsPlaced top e ps qs x f g = append-cancel (path_parts scope) ps qs (
      sym (ok_s.placed (path_parts scope ++ ps) x (reach ps f))
      ∙ ok_s.placed (path_parts scope ++ qs) x (reach qs g))
    where
      reach :
          (rs : List Str)
          → path_at rs top ≡ some x
          → path_at (path_parts scope ++ rs) s.paths ≡ some x
      reach rs h = ground (arith, path_at-append (path_parts scope) rs s.paths)

  scope_paths_ordered : IsSorted (scope_paths scope s) × IsDistinct (scope_paths scope s)
  unfolding scope_paths
  scope_paths_ordered = elim (Option-cases (find_node (path_parts scope) s.paths)) [
    | inl e ↦ rw (e, scope_paths) (tt, tt)
    | inr (top, e) ↦
        rw (e, scope_paths)
          (
            sort-IsSorted (collect top),
            sort-IsDistinct (collect top) (
                collect-IsDistinct top (find_node-is_tree (path_parts scope) s.paths ok_s.tree e)
                  (top-IsPlaced top e)),
          )
  ]

  -- A walk of a consistent store visits its paths in order, each once, and these are the stored
  -- paths whose elements begin with those of the scope.
  pub scope_paths_exact :
      IsSorted (scope_paths scope s)
      × IsDistinct (scope_paths scope s)
      × ((p : Str)
          → elem p (scope_paths scope s)
            ≡ has s.entries p && begins (path_parts scope) (path_parts p))
  scope_paths_exact = (
    scope_paths_ordered.0,
    scope_paths_ordered.1,
    λ p.
        Bool-ext (elem p (scope_paths scope s))
          (has s.entries p && begins (path_parts scope) (path_parts p))
          (λ h. ground (arith, scope_paths-below scope s ok_s p h))
          (λ h. below-scope_paths scope s ok_s p (ground arith) (ground arith)),
  )
