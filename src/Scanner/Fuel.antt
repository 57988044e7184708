-- ===== src/Scanner/Fuel.antt =====
-- The walk of internal/scanner/scanner.go ends: where links are followed, cycles included.
use fsrecon.Prelude.{
  ℕ, zero, suc, ◌<◌, ◌≤◌, ◌≡◌, refl, sym, subst, ◌⊎◌, inl, inr, Bool, true, false, not, ◌||◌,
  Bool-cases, Str, Option, none, some, List, [], ◌∷◌, str_eq, elem, length, length-keep-le, Result,
  ok, err, if◌then◌else◌, arith,
}
use fsrecon.FilePath.{clean, join_path}
use fsrecon.Scanner.{Entry, is_dir, is_symlink}
use fsrecon.Scanner.Walk.{
  SymlinkPolicy, follow_symlinks, ignore_symlinks, report_symlinks, reject_symlinks, Scanner,
  FileInfo, FileSystem, ScannerError, file_error, Walk, Resolved, skipped, refused, resolved,
  passes, entry_of, make_entry, called, emitted, emit, resolve, resolve_found, follow_link,
  enter_unseen, descend, visit_entry, visit_resolved, visit_names, visit_listing, walk_dir,
  start_seen, first_seen, scan_root, scan_link, scan_found, scan,
}
use fsrecon.Scanner.Seen.{
  unseen, unseen-cons, Ends, Below, Bounded, Bounded-le, Bounded-bind, Bounded-Ends, Bounded-if,
  IsFine, skip-IsFine,
}

module _ {E G A : Type 0} (fs : FileSystem E) (scanner : Scanner) (fn : Entry → A → Result G A)
    (ids : List Str) where
  -- Each directory has an identity, one of a list.
  abbrev pub HasIdentities : Type 0
  HasIdentities =
      (path : Str) (info : FileInfo) (followed : Bool) (id : Str) (links : ℕ)
      → fs.file_identity path info followed ≡ inr (id, links)
      → is_dir info.mode ≡ true
      → (str_eq id [] ≡ false) × (elem id ids ≡ true)

  follow_link-IsFine :
      (path : Str) (info : FileInfo) (policy : SymlinkPolicy)
      → IsFine (follow_link fs scanner fn path info policy)
  follow_link-IsFine path info ignore_symlinks = tt
  follow_link-IsFine path info report_symlinks = tt
  follow_link-IsFine path info reject_symlinks = tt
  follow_link-IsFine path info follow_symlinks = target-IsFine (fs.stat path)
    where
      target-IsFine :
          (o : E ⊎ FileInfo)
          → IsFine {E = E} {G = G} (elim o [
            | inl e ↦ if fs.is_not_exist e then skipped else refused (file_error e)
            | inr target ↦ resolved target true
          ])
      target-IsFine (inl e) = skip-IsFine G (fs.is_not_exist e) e
      target-IsFine (inr target) = tt

  -- No name ends the walk for want of fuel.
  resolve-IsFine : (path : Str) → IsFine (resolve fs scanner fn path)
  unfolding resolve
  resolve-IsFine path = found-IsFine (fs.lstat path)
    where
      found-IsFine : (o : E ⊎ FileInfo) → IsFine (resolve_found fs scanner fn path o)
      found-IsFine (inl e) = skip-IsFine G (fs.is_not_exist e) e
      found-IsFine (inr info) = elim (Bool-cases (is_symlink info.mode)) [
        | inl l ↦
            subst
              (λ b. IsFine {E = E} {G = G} (
                if b
                then follow_link fs scanner fn path info scanner.symlink_policy
                else resolved info false))
              (sym l) (follow_link-IsFine path info scanner.symlink_policy)
        | inr l ↦
            subst
              (λ b. IsFine {E = E} {G = G} (
                if b
                then follow_link fs scanner fn path info scanner.symlink_policy
                else resolved info false))
              (sym l) tt
      ]

  module _ (walk : Str → Walk A → Result (ScannerError E G) (Walk A)) (fuel : ℕ)
      (walks : (path : Str) (w : Walk A) (j : ℕ)
        → j < fuel
        → Below ids j w.seen
        → Bounded ids j (walk path w))
      (k : ℕ) (small : k ≤ fuel) where
    enter_unseen-Bounded :
        (path id : Str) (w : Walk A) (o : Option (List Str))
        → str_eq id [] ≡ false
        → elem id ids ≡ true
        → w.seen ≡ o
        → Below ids k o
        → Bounded ids k (enter_unseen fs scanner fn walk path id w o)
    enter_unseen-Bounded path id w none d i s b = absurd b
    enter_unseen-Bounded path id w (some seen) d i s b =
        Bounded-if ids k (str_eq id []) (walk path w) _ (λ e. cc (e, d))
          (λ _.
            Bounded-if ids k (elem id seen) (ok w)
              (walk path (record w { seen = some (id ∷ seen) }))
              (λ _. subst (Below ids k) (sym s) b)
              (λ e.
                Bounded-le ids (unseen ids (id ∷ seen)) k _
                  (omega (arith, unseen-cons ids id seen i e, b))
                  (walks path (record w { seen = some (id ∷ seen) }) (unseen ids (id ∷ seen))
                    (omega (arith, unseen-cons ids id seen i e, b, small)) (omega arith))))

    descend-Bounded :
        (entry : Entry) (w : Walk A)
        → (is_dir entry.mode ≡ true
            → (str_eq entry.identity [] ≡ false) × (elem entry.identity ids ≡ true))
        → Below ids k w.seen
        → Bounded ids k (descend fs scanner fn walk entry w)
    unfolding descend
    descend-Bounded entry w h b =
        Bounded-if ids k (not scanner.recursive || not (is_dir entry.mode)) (ok w) _ (λ _. b)
          (λ e.
            enter_unseen-Bounded entry.path entry.identity w w.seen (h (ground (arith, e))).0
              (h (ground (arith, e))).1 refl b)

    called-Bounded :
        (w : Walk A) (r : Result G A)
        → Below ids k w.seen
        → Bounded ids k (called fs scanner fn w r)
    called-Bounded w (ok a) b = b
    called-Bounded w (err e a) b = tt

    visit_entry-Bounded :
        (entry : Entry) (w : Walk A)
        → (is_dir entry.mode ≡ true
            → (str_eq entry.identity [] ≡ false) × (elem entry.identity ids ≡ true))
        → Below ids k w.seen
        → Bounded ids k (visit_entry fs scanner fn walk w (inr entry))
    visit_entry-Bounded entry w h b =
        Bounded-if ids k (passes scanner.filter entry) _ (ok w)
          (λ _.
            Bounded-bind ids k (called fs scanner fn w (fn entry w.acc))
              (descend fs scanner fn walk entry) (called-Bounded w (fn entry w.acc) b)
              (λ v c. descend-Bounded entry v h c))
          (λ _. b)

    visit_resolved-Bounded :
        HasIdentities
        → (path : Str) (w : Walk A) (r : Resolved E G) → IsFine r
        → Below ids k w.seen
        → Bounded ids k (visit_resolved fs scanner fn walk path w r)
    unfolding visit_resolved make_entry
    visit_resolved-Bounded h path w skipped n b = b
    visit_resolved-Bounded h path w (refused e) n b = n
    visit_resolved-Bounded h path w (resolved info followed) n b =
        made (fs.file_identity path info followed) (h path info followed)
      where
        made :
            (o : E ⊎ (Str × ℕ))
            → ((id : Str) (links : ℕ)
                → o ≡ inr (id, links)
                → is_dir info.mode ≡ true
                → (str_eq id [] ≡ false) × (elem id ids ≡ true))
            → Bounded ids k (
                visit_entry fs scanner fn walk w
                  (elim o [ inl e ↦ inl e | inr (id, links) ↦ inr (entry_of path info id links) ]))
        made (inl e) g = tt
        made (inr (id, links)) g =
            visit_entry-Bounded (entry_of path info id links) w (g id links refl) b

    visit_names-Bounded :
        HasIdentities
        → (dir : Str) (names : List Str) (fault : Option E) (w : Walk A) → Below ids k w.seen
        → Bounded ids k (visit_names fs scanner fn walk dir names fault w)
    unfolding visit_names
    visit_names-Bounded h dir [] none w b = b
    visit_names-Bounded h dir [] (some e) w b = tt
    visit_names-Bounded h dir (name ∷ names) fault w b =
        Bounded-bind ids k
          (visit_resolved fs scanner fn walk (join_path dir name) w
            (resolve fs scanner fn (join_path dir name)))
          (visit_names fs scanner fn walk dir names fault)
          (visit_resolved-Bounded h (join_path dir name) w
            (resolve fs scanner fn (join_path dir name)) (resolve-IsFine (join_path dir name)) b)
          (λ v c. visit_names-Bounded h dir names fault v c)

    visit_listing-Bounded :
        HasIdentities
        → (dir : Str) (w : Walk A) (listing : E ⊎ (List Str × Option E)) → Below ids k w.seen
        → Bounded ids k (visit_listing fs scanner fn walk dir w listing)
    visit_listing-Bounded h dir w (inl e) b = tt
    visit_listing-Bounded h dir w (inr (names, fault)) b = visit_names-Bounded h dir names fault w b

  walk_dir-Bounded :
      HasIdentities
      → (fuel : ℕ) (dir : Str) (w : Walk A) (k : ℕ) → k < fuel
      → Below ids k w.seen
      → Bounded ids k (walk_dir fs scanner fn fuel dir w)
  unfolding walk_dir
  walk_dir-Bounded h zero dir w k f b = absurd (omega (arith, f))
  walk_dir-Bounded h (suc fuel) dir w k f b =
      visit_listing-Bounded (walk_dir fs scanner fn fuel) fuel
        (λ path v j g c. walk_dir-Bounded h fuel path v j g c) k (omega (arith, f)) h dir w
        (fs.read_dir dir) b

  Ends-if :
      (c : Bool) (r q : Result (ScannerError E G) (Walk A))
      → Ends r
      → Ends q
      → Ends (if c then r else q)
  Ends-if true r q h k = h
  Ends-if false r q h k = k

  called-Ends : (w : Walk A) (r : Result G A) → Ends (called fs scanner fn w r)
  called-Ends w (ok a) = tt
  called-Ends w (err e a) = tt

  emit-Ends : (path : Str) (info : FileInfo) (w : Walk A) → Ends (emit fs scanner fn path info w)
  unfolding emit
  emit-Ends path info w = emitted-Ends (make_entry fs scanner fn path info false)
    where
      emitted-Ends : (o : E ⊎ Entry) → Ends (emitted fs scanner fn w o)
      emitted-Ends (inl e) = tt
      emitted-Ends (inr entry) =
          Ends-if (passes scanner.filter entry) (called fs scanner fn w (fn entry w.acc)) (ok w)
            (called-Ends w (fn entry w.acc)) tt

  scan_root-Ends :
      HasIdentities
      → (fuel : ℕ) (root : Str) (info : FileInfo) (a : A) → scanner.symlink_policy ≡ follow_symlinks
      → length ids < fuel
      → Ends (scan_root fs scanner fn fuel root info a)
  unfolding scan_root
  scan_root-Ends h fuel root info a p f =
      Ends-if (is_dir info.mode) _ (emit fs scanner fn root info (record { seen = none; acc = a }))
        (Bounded-Ends ids (length ids) _ (
          walk_dir-Bounded h fuel root
            (record { seen = start_seen fs scanner fn root info scanner.symlink_policy; acc = a })
            (length ids) f
            (subst (λ q. Below ids (length ids) (start_seen fs scanner fn root info q)) (sym p)
              (length-keep-le
                (λ i. not (elem i (first_seen fs scanner fn (fs.file_identity root info true))))
                ids))))
        (emit-Ends root info (record { seen = none; acc = a }))

  -- A scan that follows symbolic links ends before its fuel is used up, whatever cycles the links
  -- form, where each directory has an identity, one of a list that is shorter than the fuel.
  pub scan-Ends :
      (fuel : ℕ) (root : Str) (a : A)
      → HasIdentities
      → scanner.symlink_policy ≡ follow_symlinks
      → length ids < fuel
      → Ends (scan fs scanner fn fuel root a)
  unfolding scan
  scan-Ends fuel root a h p f = found-Ends (fs.lstat (clean root))
    where
      link-Ends :
          (info : FileInfo) (policy : SymlinkPolicy)
          → Ends (scan_link fs scanner fn fuel (clean root) info a policy)
      link-Ends info ignore_symlinks = tt
      link-Ends info reject_symlinks = tt
      link-Ends info report_symlinks = emit-Ends (clean root) info (record { seen = none; acc = a })
      link-Ends info follow_symlinks = target-Ends (fs.stat (clean root))
        where
          target-Ends :
              (o : E ⊎ FileInfo)
              → Ends {E = E} {G = G} (elim o [
                | inl e ↦ err (file_error e) (record { seen = none; acc = a })
                | inr target ↦ scan_root fs scanner fn fuel (clean root) target a
              ])
          target-Ends (inl e) = tt
          target-Ends (inr target) = scan_root-Ends h fuel (clean root) target a p f

      found-Ends : (o : E ⊎ FileInfo) → Ends (scan_found fs scanner fn fuel (clean root) a o)
      found-Ends (inl e) = tt
      found-Ends (inr info) =
          Ends-if (is_symlink info.mode) _ _ (link-Ends info scanner.symlink_policy)
            (scan_root-Ends h fuel (clean root) info a p f)
