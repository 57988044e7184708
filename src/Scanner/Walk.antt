-- ===== src/Scanner/Walk.antt =====
-- internal/scanner/scanner.go: the walk of a scan over a filesystem that does not change meanwhile,
-- with a callback that may fail. Contexts are left out. The batches of `ReadDir` are one list of
-- names, followed by the error that ends the reading. A walk runs on fuel, one unit a level.
use fsrecon.Prelude.{
  ℕ, zero, suc, ◌⊎◌, inl, inr, Bool, true, false, not, ◌||◌, Str, Option, none, some, List, [], ◌∷◌,
  str_eq, elem, Result, ok, err, ◌>>=◌, if◌then◌else◌,
}
use fsrecon.FilePath.{clean, join_path}
use fsrecon.Scanner.{Entry, is_dir, is_symlink}

pub data SymlinkPolicy : Type 0 where
  ignore_symlinks report_symlinks follow_symlinks reject_symlinks : SymlinkPolicy

pub record Scanner : Type 0 where
  pub recursive : Bool
  pub symlink_policy : SymlinkPolicy
  pub filter : Option (Entry → Bool)

-- `fs.FileInfo`
pub record FileInfo : Type 0 where
  pub mode : ℕ
  pub size : ℕ
  pub mod_time : ℕ

-- `os.Lstat`, `os.Stat`, `os.Open` with `ReadDir`, `errors.Is(err, fs.ErrNotExist)`, and
-- `fileIdentity`, which looks at a path, its info and whether a link was followed.
pub record FileSystem (E : Type 0) : Type 0 where
  pub lstat : Str → E ⊎ FileInfo
  pub stat : Str → E ⊎ FileInfo
  pub read_dir : Str → E ⊎ (List Str × Option E)
  pub file_identity : Str → FileInfo → Bool → E ⊎ (Str × ℕ)
  pub is_not_exist : E → Bool

pub data ScannerError (E G : Type 0) : Type 0 where
  file_error : E → ScannerError E G
  err_symlink : Str → ScannerError E G
  callback_failed : G → ScannerError E G
  out_of_fuel : ScannerError E G

-- The identities of the directories that were entered, where links are followed, and the state of
-- the callback.
pub record Walk (A : Type 0) : Type 0 where
  pub seen : Option (List Str)
  pub acc : A

-- What becomes of a name: it is passed over, it ends the walk, or it has an info.
pub data Resolved (E G : Type 0) : Type 0 where
  skipped : Resolved E G
  refused : ScannerError E G → Resolved E G
  resolved : FileInfo → Bool → Resolved E G

abbrev pub passes : Option (Entry → Bool) → Entry → Bool
passes none entry = true
passes (some f) entry = f entry

abbrev pub entry_of : Str → FileInfo → Str → ℕ → Entry
entry_of path info id links = record {
  path = path;
  identity = id;
  size = info.size;
  mod_time = info.mod_time;
  mode = info.mode;
  links = links;
}

module _ {E G A : Type 0} (fs : FileSystem E) (scanner : Scanner)
    (fn : Entry → A → Result G A) where
  -- `makeEntry`
  unfoldable pub make_entry : Str → FileInfo → Bool → E ⊎ Entry
  make_entry path info followed = elim (fs.file_identity path info followed) [
    | inl e ↦ inl e
    | inr (id, links) ↦ inr (entry_of path info id links)
  ]

  -- A callback's result as the walk's.
  abbrev pub called : Walk A → Result G A → Result (ScannerError E G) (Walk A)
  called w (ok a) = ok (record w { acc = a })
  called w (err e a) = err (callback_failed e) (record w { acc = a })

  abbrev pub emitted : Walk A → E ⊎ Entry → Result (ScannerError E G) (Walk A)
  emitted w (inl e) = err (file_error e) w
  emitted w (inr entry) = if passes scanner.filter entry then called w (fn entry w.acc) else ok w

  -- `emit`
  unfoldable pub emit : Str → FileInfo → Walk A → Result (ScannerError E G) (Walk A)
  unfolding make_entry
  emit path info w = emitted w (make_entry path info false)

  -- A link by the policy.
  abbrev pub follow_link : Str → FileInfo → SymlinkPolicy → Resolved E G
  follow_link path info ignore_symlinks = skipped
  follow_link path info report_symlinks = resolved info false
  follow_link path info reject_symlinks = refused (err_symlink path)
  follow_link path info follow_symlinks = elim (fs.stat path) [
    | inl e ↦ if fs.is_not_exist e then skipped else refused (file_error e)
    | inr target ↦ resolved target true
  ]

  abbrev pub resolve_found : Str → E ⊎ FileInfo → Resolved E G
  resolve_found path (inl e) = if fs.is_not_exist e then skipped else refused (file_error e)
  resolve_found path (inr info) =
      if is_symlink info.mode
      then follow_link path info scanner.symlink_policy
      else resolved info false

  -- `os.Lstat` of a name and what is made of it.
  unfoldable pub resolve : Str → Resolved E G
  unfolding is_symlink
  resolve path = resolve_found path (fs.lstat path)

  -- Into a directory, unless it was entered before under its identity.
  abbrev pub enter_unseen :
      (Str → Walk A → Result (ScannerError E G) (Walk A))
      → Str
      → Str
      → Walk A
      → Option (List Str)
      → Result (ScannerError E G) (Walk A)
  enter_unseen walk path id w none = walk path w
  enter_unseen walk path id w (some seen) =
      if str_eq id []
      then walk path w
      else if elem id seen
      then ok w
      else walk path (record w { seen = some (id ∷ seen) })

  unfoldable pub descend :
      (Str → Walk A → Result (ScannerError E G) (Walk A))
      → Entry
      → Walk A
      → Result (ScannerError E G) (Walk A)
  unfolding is_dir
  descend walk entry w =
      if not scanner.recursive || not (is_dir entry.mode)
      then ok w
      else enter_unseen walk entry.path entry.identity w w.seen

  abbrev pub visit_entry :
      (Str → Walk A → Result (ScannerError E G) (Walk A))
      → Walk A
      → E ⊎ Entry
      → Result (ScannerError E G) (Walk A)
  visit_entry walk w (inl e) = err (file_error e) w
  visit_entry walk w (inr entry) =
      if passes scanner.filter entry then called w (fn entry w.acc) >>= descend walk entry else ok w

  unfoldable pub visit_resolved :
      (Str → Walk A → Result (ScannerError E G) (Walk A))
      → Str
      → Walk A
      → Resolved E G
      → Result (ScannerError E G) (Walk A)
  unfolding make_entry descend
  visit_resolved walk path w skipped = ok w
  visit_resolved walk path w (refused e) = err e w
  visit_resolved walk path w (resolved info followed) =
      visit_entry walk w (make_entry path info followed)

  -- The names of a directory in turn, then the error that ends the reading.
  unfoldable pub visit_names :
      (Str → Walk A → Result (ScannerError E G) (Walk A))
      → Str
      → List Str
      → Option E
      → Walk A
      → Result (ScannerError E G) (Walk A)
  unfolding visit_resolved resolve
  visit_names walk dir [] none w = ok w
  visit_names walk dir [] (some e) w = err (file_error e) w
  visit_names walk dir (name ∷ names) fault w =
      visit_resolved walk (join_path dir name) w (resolve (join_path dir name))
      >>= visit_names walk dir names fault

  abbrev pub visit_listing :
      (Str → Walk A → Result (ScannerError E G) (Walk A))
      → Str
      → Walk A
      → E ⊎ (List Str × Option E)
      → Result (ScannerError E G) (Walk A)
  visit_listing walk dir w (inl e) = err (file_error e) w
  visit_listing walk dir w (inr (names, fault)) = visit_names walk dir names fault w

  -- `walkDir`
  unfoldable pub walk_dir : ℕ → Str → Walk A → Result (ScannerError E G) (Walk A)
  unfolding visit_names
  walk_dir zero dir w = err out_of_fuel w
  walk_dir (suc fuel) dir w = visit_listing (walk_dir fuel) dir w (fs.read_dir dir)

  abbrev pub first_seen : E ⊎ (Str × ℕ) → List Str
  first_seen (inl e) = []
  first_seen (inr (id, links)) = if str_eq id [] then [] else id ∷ []

  -- The root's identity is seen from the start, where links are followed.
  abbrev pub start_seen : Str → FileInfo → SymlinkPolicy → Option (List Str)
  start_seen root info follow_symlinks = some (first_seen (fs.file_identity root info true))
  start_seen root info ignore_symlinks = none
  start_seen root info report_symlinks = none
  start_seen root info reject_symlinks = none

  -- A root that is no link, or what a link leads to.
  unfoldable pub scan_root : ℕ → Str → FileInfo → A → Result (ScannerError E G) (Walk A)
  unfolding emit walk_dir is_dir
  scan_root fuel root info a =
      if is_dir info.mode
      then walk_dir fuel root
          (record { seen = start_seen root info scanner.symlink_policy; acc = a })
      else emit root info (record { seen = none; acc = a })

  abbrev pub scan_link : ℕ → Str → FileInfo → A → SymlinkPolicy → Result (ScannerError E G) (Walk A)
  scan_link fuel root info a ignore_symlinks = ok (record { seen = none; acc = a })
  scan_link fuel root info a reject_symlinks =
      err (err_symlink root) (record { seen = none; acc = a })
  scan_link fuel root info a report_symlinks = emit root info (record { seen = none; acc = a })
  scan_link fuel root info a follow_symlinks = elim (fs.stat root) [
    | inl e ↦ err (file_error e) (record { seen = none; acc = a })
    | inr target ↦ scan_root fuel root target a
  ]

  abbrev pub scan_found : ℕ → Str → A → E ⊎ FileInfo → Result (ScannerError E G) (Walk A)
  scan_found fuel root a (inl e) = err (file_error e) (record { seen = none; acc = a })
  scan_found fuel root a (inr info) =
      if is_symlink info.mode
      then scan_link fuel root info a scanner.symlink_policy
      else scan_root fuel root info a

  -- `Scan`
  unfoldable pub scan : ℕ → Str → A → Result (ScannerError E G) (Walk A)
  unfolding scan_root emit is_symlink clean
  scan fuel root a = scan_found fuel (clean root) a (fs.lstat (clean root))
