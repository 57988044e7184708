-- ===== src/Scanner/Admitted.antt =====
-- What the walk of internal/scanner/scanner.go hands to its callback.
use fsrecon.Prelude.{
  ℕ, zero, suc, ◌≡◌, refl, sym, subst, ◌⊎◌, inl, inr, Bool, true, false, not, ◌&&◌, ◌||◌,
  Bool-cases, Str, Option, none, some, List, [], ◌∷◌, str_eq, elem, Result, ok, err, ◌>>=◌, final,
  if◌then◌else◌, arith,
}
use fsrecon.FilePath.{clean, join_path}
use fsrecon.Scanner.{Entry, is_dir, is_symlink}
use fsrecon.Scanner.Walk.{
  SymlinkPolicy, follow_symlinks, ignore_symlinks, report_symlinks, reject_symlinks, Scanner,
  FileInfo, FileSystem, ScannerError, file_error, Walk, Resolved, skipped, refused, resolved,
  passes, entry_of, make_entry, called, emitted, emit, resolve, resolve_found, follow_link,
  enter_unseen, descend, visit_entry, visit_resolved, visit_names, visit_listing, walk_dir,
  start_seen, scan_root, scan_link, scan_found, scan,
}

abbrev pub reports : SymlinkPolicy → Bool
reports report_symlinks = true
reports ignore_symlinks = false
reports follow_symlinks = false
reports reject_symlinks = false

shown : (r l : Bool) → l ≡ false → r || not l ≡ true
shown r l h = ground arith

module _ {E G A : Type 0} (fs : FileSystem E) (scanner : Scanner)
    (fn : Entry → A → Result G A) where
  -- A link itself is shown by the reporting policy only.
  abbrev pub is_shown : ℕ → Bool
  is_shown mode = reports scanner.symlink_policy || not (is_symlink mode)

  abbrev pub is_admitted : Entry → Bool
  is_admitted entry = passes scanner.filter entry && is_shown entry.mode

  -- `os.Stat` follows links to their end.
  abbrev pub FollowsLinks : Type 0
  FollowsLinks =
      (path : Str) (info : FileInfo) → fs.stat path ≡ inr info → is_symlink info.mode ≡ false

  abbrev IsShown : Resolved E G → Type 0
  IsShown skipped = Unit {0}
  IsShown (refused e) = Unit {0}
  IsShown (resolved info followed) = is_shown info.mode ≡ true

  skip-IsShown : (c : Bool) (e : E) → IsShown (if c then skipped else refused (file_error e))
  skip-IsShown true e = tt
  skip-IsShown false e = tt

  follow_link-IsShown :
      FollowsLinks
      → (path : Str) (info : FileInfo) (policy : SymlinkPolicy) → scanner.symlink_policy ≡ policy
      → IsShown (follow_link fs scanner fn path info policy)
  follow_link-IsShown h path info ignore_symlinks p = tt
  follow_link-IsShown h path info report_symlinks p =
      subst (λ q. reports q || not (is_symlink info.mode) ≡ true) (sym p) refl
  follow_link-IsShown h path info reject_symlinks p = tt
  follow_link-IsShown h path info follow_symlinks p = target-IsShown (fs.stat path) (h path)
    where
      target-IsShown :
          (o : E ⊎ FileInfo)
          → ((target : FileInfo) → o ≡ inr target → is_symlink target.mode ≡ false)
          → IsShown (elim o [
            | inl e ↦ if fs.is_not_exist e then skipped else refused (file_error e)
            | inr target ↦ resolved target true
          ])
      target-IsShown (inl e) g = skip-IsShown (fs.is_not_exist e) e
      target-IsShown (inr target) g =
          shown (reports scanner.symlink_policy) (is_symlink target.mode) (g target refl)

  resolve-IsShown : FollowsLinks → (path : Str) → IsShown (resolve fs scanner fn path)
  unfolding resolve
  resolve-IsShown h path = found-IsShown (fs.lstat path)
    where
      found-IsShown : (o : E ⊎ FileInfo) → IsShown (resolve_found fs scanner fn path o)
      found-IsShown (inl e) = skip-IsShown (fs.is_not_exist e) e
      found-IsShown (inr info) = elim (Bool-cases (is_symlink info.mode)) [
        | inl l ↦
            subst
              (λ b. IsShown (
                if b
                then follow_link fs scanner fn path info scanner.symlink_policy
                else resolved info false))
              (sym l) (follow_link-IsShown h path info scanner.symlink_policy refl)
        | inr l ↦
            subst
              (λ b. IsShown (
                if b
                then follow_link fs scanner fn path info scanner.symlink_policy
                else resolved info false))
              (sym l) (shown (reports scanner.symlink_policy) (is_symlink info.mode) l)
      ]

  module _ (P : A → Type 0) where
    -- Each call on an admitted entry keeps a predicate, whether it fails or not.
    abbrev pub KeepsOnAdmitted : Type 0
    KeepsOnAdmitted =
        (entry : Entry) (a : A) → is_admitted entry ≡ true → P a → P (final (fn entry a))

    abbrev Kept : Result (ScannerError E G) (Walk A) → Type 0
    Kept r = P (final r).acc

    Kept-if :
        (c : Bool) (r q : Result (ScannerError E G) (Walk A))
        → (c ≡ true → Kept r)
        → (c ≡ false → Kept q)
        → Kept (if c then r else q)
    Kept-if true r q h k = h refl
    Kept-if false r q h k = k refl

    Kept-bind :
        (r : Result (ScannerError E G) (Walk A)) (f : Walk A → Result (ScannerError E G) (Walk A))
        → Kept r
        → ((w : Walk A) → P w.acc → Kept (f w))
        → Kept (r >>= f)
    Kept-bind (ok w) f h k = k w h
    Kept-bind (err e w) f h k = h

    called-Kept : (w : Walk A) (r : Result G A) → P (final r) → Kept (called fs scanner fn w r)
    called-Kept w (ok a) h = h
    called-Kept w (err e a) h = h

    admitted :
        (entry : Entry)
        → passes scanner.filter entry ≡ true
        → is_shown entry.mode ≡ true
        → is_admitted entry ≡ true
    admitted entry h k = ground (arith, h, k)

    emit-Kept :
        KeepsOnAdmitted
        → (path : Str) (info : FileInfo) (w : Walk A) → is_shown info.mode ≡ true
        → P w.acc
        → Kept (emit fs scanner fn path info w)
    unfolding emit make_entry
    emit-Kept g path info w s h = made (fs.file_identity path info false)
      where
        made :
            (o : E ⊎ (Str × ℕ))
            → Kept (
                emitted fs scanner fn w
                  (elim o [ inl e ↦ inl e | inr (id, links) ↦ inr (entry_of path info id links) ]))
        made (inl e) = h
        made (inr (id, links)) =
            let entry = entry_of path info id links in
            Kept-if (passes scanner.filter entry) (called fs scanner fn w (fn entry w.acc)) (ok w)
              (λ p. called-Kept w (fn entry w.acc) (g entry w.acc (admitted entry p s) h)) (λ _. h)

    module _ (walk : Str → Walk A → Result (ScannerError E G) (Walk A))
        (walks : (path : Str) (w : Walk A) → P w.acc → Kept (walk path w)) where
      descend-Kept :
          (entry : Entry) (w : Walk A) → P w.acc → Kept (descend fs scanner fn walk entry w)
      unfolding descend
      descend-Kept entry w h =
          Kept-if (not scanner.recursive || not (is_dir entry.mode)) (ok w) _ (λ _. h)
            (λ _. enter_unseen-Kept w.seen)
        where
          enter_unseen-Kept :
              (o : Option (List Str))
              → Kept (enter_unseen fs scanner fn walk entry.path entry.identity w o)
          enter_unseen-Kept none = walks entry.path w h
          enter_unseen-Kept (some seen) =
              Kept-if (str_eq entry.identity []) (walk entry.path w) _ (λ _. walks entry.path w h)
                (λ _.
                  Kept-if (elem entry.identity seen) (ok w)
                    (walk entry.path (record w { seen = some (entry.identity ∷ seen) })) (λ _. h)
                    (λ _. walks entry.path (record w { seen = some (entry.identity ∷ seen) }) h))

      visit_resolved-Kept :
          KeepsOnAdmitted
          → (path : Str) (w : Walk A) (r : Resolved E G) → IsShown r
          → P w.acc
          → Kept (visit_resolved fs scanner fn walk path w r)
      unfolding visit_resolved make_entry
      visit_resolved-Kept g path w skipped s h = h
      visit_resolved-Kept g path w (refused e) s h = h
      visit_resolved-Kept g path w (resolved info followed) s h =
          made (fs.file_identity path info followed)
        where
          made :
              (o : E ⊎ (Str × ℕ))
              → Kept (
                  visit_entry fs scanner fn walk w (elim o [
                    | inl e ↦ inl e
                    | inr (id, links) ↦ inr (entry_of path info id links)
                  ]))
          made (inl e) = h
          made (inr (id, links)) =
              let entry = entry_of path info id links in
              Kept-if (passes scanner.filter entry)
                (called fs scanner fn w (fn entry w.acc) >>= descend fs scanner fn walk entry)
                (ok w)
                (λ p.
                  Kept-bind (called fs scanner fn w (fn entry w.acc))
                    (descend fs scanner fn walk entry)
                    (called-Kept w (fn entry w.acc) (g entry w.acc (admitted entry p s) h))
                    (λ v k. descend-Kept entry v k))
                (λ _. h)

      visit_names-Kept :
          KeepsOnAdmitted
          → FollowsLinks
          → (dir : Str) (names : List Str) (fault : Option E) (w : Walk A) → P w.acc
          → Kept (visit_names fs scanner fn walk dir names fault w)
      unfolding visit_names
      visit_names-Kept g l dir [] none w h = h
      visit_names-Kept g l dir [] (some e) w h = h
      visit_names-Kept g l dir (name ∷ names) fault w h =
          Kept-bind
            (visit_resolved fs scanner fn walk (join_path dir name) w
              (resolve fs scanner fn (join_path dir name)))
            (visit_names fs scanner fn walk dir names fault)
            (visit_resolved-Kept g (join_path dir name) w
              (resolve fs scanner fn (join_path dir name)) (resolve-IsShown l (join_path dir name))
              h)
            (λ v k. visit_names-Kept g l dir names fault v k)

      visit_listing-Kept :
          KeepsOnAdmitted
          → FollowsLinks
          → (dir : Str) (w : Walk A) (listing : E ⊎ (List Str × Option E)) → P w.acc
          → Kept (visit_listing fs scanner fn walk dir w listing)
      visit_listing-Kept g l dir w (inl e) h = h
      visit_listing-Kept g l dir w (inr (names, fault)) h = visit_names-Kept g l dir names fault w h

    walk_dir-Kept :
        KeepsOnAdmitted
        → FollowsLinks
        → (fuel : ℕ) (dir : Str) (w : Walk A) → P w.acc
        → Kept (walk_dir fs scanner fn fuel dir w)
    unfolding walk_dir
    walk_dir-Kept g l zero dir w h = h
    walk_dir-Kept g l (suc fuel) dir w h =
        visit_listing-Kept (walk_dir fs scanner fn fuel)
          (λ path v k. walk_dir-Kept g l fuel path v k) g l dir w (fs.read_dir dir) h

    scan_root-Kept :
        KeepsOnAdmitted
        → FollowsLinks
        → (fuel : ℕ) (root : Str) (info : FileInfo) (a : A) → is_shown info.mode ≡ true
        → P a
        → Kept (scan_root fs scanner fn fuel root info a)
    unfolding scan_root
    scan_root-Kept g l fuel root info a s h =
        Kept-if (is_dir info.mode) _
          (emit fs scanner fn root info (record { seen = none; acc = a }))
          (λ _.
            walk_dir-Kept g l fuel root
              (record { seen = start_seen fs scanner fn root info scanner.symlink_policy; acc = a })
              h)
          (λ _. emit-Kept g root info (record { seen = none; acc = a }) s h)

    -- A predicate on the callback's state that each call on an admitted entry keeps holds at the
    -- end of a scan if it held at its start, whether the scan fails or not: no other entries are
    -- handed over. An entry is admitted if the filter passes it and it is no symbolic link, save by
    -- the reporting policy. It is assumed that `os.Stat` never finds a link.
    pub scan-Kept :
        (fuel : ℕ) (root : Str) (a : A)
        → KeepsOnAdmitted
        → FollowsLinks
        → P a
        → P (final (scan fs scanner fn fuel root a)).acc
    unfolding scan
    scan-Kept fuel root a g l h = found-Kept (fs.lstat (clean root))
      where
        link-Kept :
            (info : FileInfo) (policy : SymlinkPolicy)
            → scanner.symlink_policy ≡ policy
            → Kept (scan_link fs scanner fn fuel (clean root) info a policy)
        link-Kept info ignore_symlinks p = h
        link-Kept info reject_symlinks p = h
        link-Kept info report_symlinks p =
            emit-Kept g (clean root) info (record { seen = none; acc = a })
              (subst (λ q. reports q || not (is_symlink info.mode) ≡ true) (sym p) refl) h
        link-Kept info follow_symlinks p = target-Kept (fs.stat (clean root)) (l (clean root))
          where
            target-Kept :
                (o : E ⊎ FileInfo)
                → ((target : FileInfo) → o ≡ inr target → is_symlink target.mode ≡ false)
                → Kept (elim o [
                  | inl e ↦ err (file_error e) (record { seen = none; acc = a })
                  | inr target ↦ scan_root fs scanner fn fuel (clean root) target a
                ])
            target-Kept (inl e) k = h
            target-Kept (inr target) k =
                scan_root-Kept g l fuel (clean root) target a
                  (shown (reports scanner.symlink_policy) (is_symlink target.mode) (k target refl))
                  h

        found-Kept : (o : E ⊎ FileInfo) → Kept (scan_found fs scanner fn fuel (clean root) a o)
        found-Kept (inl e) = h
        found-Kept (inr info) =
            Kept-if (is_symlink info.mode) _ _ (λ _. link-Kept info scanner.symlink_policy refl)
              (λ k.
                scan_root-Kept g l fuel (clean root) info a
                  (shown (reports scanner.symlink_policy) (is_symlink info.mode) k) h)
