-- ===== src/Observer/Collect.antt =====
-- observer.go: what the collector makes of raw events and of errors of the native watcher. The
-- watch tree is there once the collector runs. The calls on the filesystem are parameters, that of
-- `filepath.WalkDir` as the list of what it visits; contexts are left out.
use fsrecon.Prelude.{
  ℕ, ◌/◌, ◌%◌, ◌⊎◌, inl, inr, Bool, true, false, not, ◌&&◌, ◌||◌, Str, Map, Option, none, some,
  List, [], ◌∷◌, str_eq, put, ◌==◌, Result, ok, err, ◌>>=◌, if◌then◌else◌,
}
use fsrecon.FilePath.{clean, rel, starts_with, dot_dot}
use fsrecon.Delivery.{incr64}
use fsrecon.Normalize.{RawEvent}
use fsrecon.Scanner.{is_dir, is_symlink}
use fsrecon.Scanner.Walk.{
  SymlinkPolicy, ignore_symlinks, report_symlinks, follow_symlinks, reject_symlinks,
}
use fsrecon.Watchtree.{Backend, Tree, WatchError, is_watched, add, sync, remove_subtree}
use fsrecon.Observer.{
  Observer, Hint, hint_path, hint_subtree, hint_native_change, hint_overflow, root_hint_of, enqueue,
  send_error, degrade,
}

pub data ObserverError (E : Type 0) : Type 0 where
  backend_stopped symlink_refused : ObserverError E
  watch_error : WatchError E → ObserverError E
  file_error native_error : E → ObserverError E

-- A call of the callback of `filepath.WalkDir`.
pub record Visit (E : Type 0) : Type 0 where
  pub path : Str
  pub fault : Option E
  pub is_link : Bool
  pub is_directory : Bool

-- `os.Lstat` and `os.Stat`, which give a mode.
pub record ObserverPorts (E : Type 0) : Type 0 where
  pub lstat : Str → E ⊎ ℕ
  pub stat : Str → E ⊎ ℕ
  pub walk_dir : Str → List (Visit E)

-- The fields of `ObserverConfig` that the collector reads.
pub record CollectConfig : Type 0 where
  pub recursive : Bool
  pub filter : Option (Str → Bool)
  pub symlink_policy : SymlinkPolicy

pub record Collector (K E : Type 0) : Type 0 where
  pub observer : Observer (ObserverError E)
  pub tree : Tree K
  pub received : ℕ
  pub overflows : ℕ

-- `withinObserver`
unfoldable pub within_observer : Str → Str → Bool
unfolding rel starts_with
within_observer root path = elim (rel root path) [
  | none ↦ false
  | some relative ↦
      not (str_eq relative dot_dot) && not (starts_with relative (b'.' ∷ b'.' ∷ b'/' ∷ []))
]

abbrev pub passes_filter : Option (Str → Bool) → Str → Bool
passes_filter none path = true
passes_filter (some f) path = f path

abbrev pub path_hint : Str → Hint
path_hint path = record { path = path; scope = hint_path; cause = hint_native_change }

abbrev pub subtree_hint : Str → Hint
subtree_hint path = record { path = path; scope = hint_subtree; cause = hint_native_change }

-- The bits of `OpCreate`, `OpRemove` and `OpRename`.
abbrev pub has_create : ℕ → Bool
has_create op = op % 2 == 1

abbrev pub has_remove : ℕ → Bool
has_remove op = op / 4 % 2 == 1

abbrev pub has_rename : ℕ → Bool
has_rename op = op / 8 % 2 == 1

-- What the callback of `walkObserverDirectoriesPolicy` makes of a visit.
abbrev pub link_passes : SymlinkPolicy → Bool
link_passes follow_symlinks = true
link_passes ignore_symlinks = false
link_passes report_symlinks = false
link_passes reject_symlinks = false

abbrev pub refuses_links : SymlinkPolicy → Bool
refuses_links reject_symlinks = true
refuses_links ignore_symlinks = false
refuses_links report_symlinks = false
refuses_links follow_symlinks = false

module _ {E S : Type 0} (policy : SymlinkPolicy) (fn : Str → S → Result (ObserverError E) S) where
  unfoldable pub visit_directory : Str → Visit E → S → Option E → Result (ObserverError E) S
  visit_directory root v s (some e) = err (file_error e) s
  visit_directory root v s none =
      if v.is_link && refuses_links policy
      then err symlink_refused s
      else if v.is_link && not (link_passes policy)
      then ok s
      else if str_eq v.path root || v.is_directory
      then fn v.path s
      else ok s

  unfoldable pub visit_directories : Str → List (Visit E) → S → Result (ObserverError E) S
  unfolding visit_directory
  visit_directories root [] s = ok s
  visit_directories root (v ∷ visits) s =
      visit_directory root v s v.fault >>= visit_directories root visits

  -- `walkObserverDirectoriesPolicy`
  unfoldable pub walk_observer_directories : ObserverPorts E → Str → S → Result (ObserverError E) S
  unfolding visit_directories is_dir
  walk_observer_directories ports root s = elim (ports.stat root) [
    | inl e ↦ err (file_error e) s
    | inr mode ↦ if is_dir mode then visit_directories root (ports.walk_dir root) s else ok s
  ]

-- The tree that is being brought up to date and the directories that were seen.
pub record Resync (K : Type 0) : Type 0 where
  pub tree : Tree K
  pub observed : Map (Unit {0})

module _ {K E : Type 0} (config : CollectConfig) (ports : ObserverPorts E)
    (backend : Backend K E) where
  abbrev pub watched : Result (WatchError E) (Tree K) → Result (ObserverError E) (Tree K)
  watched (ok t) = ok t
  watched (err e t) = err (watch_error e) t

  abbrev pub observed_with :
      Map (Unit {0}) → Result (ObserverError E) (Tree K) → Result (ObserverError E) (Resync K)
  observed_with m (ok t) = ok (record { tree = t; observed = m })
  observed_with m (err e t) = err e (record { tree = t; observed = m })

  -- The callback of `resyncWatchTree`.
  abbrev pub observe_directory : Str → Resync K → Result (ObserverError E) (Resync K)
  observe_directory path r =
      observed_with (put r.observed path tt) (watched (add backend path r.tree))

  abbrev pub sync_observed :
      Str → Result (ObserverError E) (Resync K) → Result (ObserverError E) (Tree K)
  sync_observed root (ok r) = watched (sync backend (root ∷ []) r.observed r.tree)
  sync_observed root (err e r) = err e r.tree

  -- `resyncWatchTree`
  unfoldable pub resync_watch_tree : Str → Tree K → Result (ObserverError E) (Tree K)
  unfolding walk_observer_directories sync add
  resync_watch_tree root tree =
      if config.recursive
      then sync_observed root (
          walk_observer_directories config.symlink_policy observe_directory ports root
            (record { tree = tree; observed = [] }))
      else ok tree

  abbrev pub on_observer :
      (Observer (ObserverError E) → Observer (ObserverError E)) → Collector K E → Collector K E
  on_observer f c = record c { observer = f c.observer }

  -- A step on the tree: its failure degrades the observer, and nothing else is done.
  abbrev pub on_tree :
      (Collector K E → Collector K E)
      → Collector K E
      → Result (ObserverError E) (Tree K)
      → Collector K E
  on_tree f c (ok t) = f (record c { tree = t })
  on_tree f c (err e t) = on_observer (degrade e) (record c { tree = t })

  abbrev pub announce : Hint → Collector K E → Collector K E
  announce h c = on_observer (enqueue h) c

  abbrev pub announce_path : Str → Collector K E → Collector K E
  announce_path path c = if passes_filter config.filter path then announce (path_hint path) c else c

  unfoldable pub on_removed : Str → Collector K E → Collector K E
  unfolding degrade enqueue remove_subtree is_watched
  on_removed path c =
      if str_eq path c.observer.root
      then on_observer (degrade backend_stopped) c
      else on_tree
          (if is_watched path c.tree then announce (subtree_hint path) else announce_path path) c
          (watched (remove_subtree backend path c.tree))

  abbrev pub resync_root : Collector K E → Collector K E
  resync_root c =
      on_tree (announce (root_hint_of c.observer.root hint_native_change)) c
        (resync_watch_tree c.observer.root c.tree)

  unfoldable pub on_renamed : Str → Collector K E → Collector K E
  unfolding degrade enqueue remove_subtree resync_watch_tree
  on_renamed path c =
      if str_eq path c.observer.root
      then on_observer (degrade backend_stopped) c
      else on_tree resync_root c (watched (remove_subtree backend path c.tree))

  abbrev pub watch_new : Str → Collector K E → Collector K E
  watch_new path c = on_tree (announce (subtree_hint path)) c (
      walk_observer_directories config.symlink_policy (λ p t. watched (add backend p t)) ports path
        c.tree)

  -- A new directory entry, by the mode that `os.Lstat` gives.
  unfoldable pub on_created : Str → Collector K E → E ⊎ ℕ → Collector K E
  unfolding degrade enqueue walk_observer_directories add is_dir is_symlink
  on_created path c (inl e) = announce_path path c
  on_created path c (inr mode) =
      if is_symlink mode
      then (if refuses_links config.symlink_policy
          then on_observer (degrade symlink_refused) c
          else announce_path path c)
      else if is_dir mode
      then on_tree (watch_new path) c (watched (add backend path c.tree))
      else announce_path path c

  abbrev pub handle_path : Str → ℕ → Collector K E → Collector K E
  handle_path path op c =
      if not (within_observer c.observer.root path)
      then c
      else if has_remove op
      then on_removed path c
      else if has_rename op
      then on_renamed path c
      else if config.recursive && has_create op
      then on_created path c (ports.lstat path)
      else announce_path path c

  -- `handleRaw`
  unfoldable pub handle_raw : RawEvent → Collector K E → Collector K E
  unfolding on_removed on_renamed on_created within_observer clean
  handle_raw raw c = handle_path (clean raw.path) raw.op c

  -- The cases of `collect`.
  abbrev pub raw_received : RawEvent → Collector K E → Collector K E
  raw_received raw c = handle_raw raw (record c { received = incr64 c.received })

  abbrev pub events_closed : Collector K E → Collector K E
  events_closed c = on_observer (degrade backend_stopped) c

  abbrev pub overflow_announced : E → Collector K E → Collector K E
  overflow_announced e c =
      on_observer (send_error (native_error e))
        (announce (root_hint_of c.observer.root hint_overflow) c)

  unfoldable pub overflowed : E → Collector K E → Collector K E
  unfolding resync_watch_tree degrade enqueue send_error
  overflowed e c = on_tree (overflow_announced e) c (resync_watch_tree c.observer.root c.tree)

  -- The Boolean is `errors.Is(err, ErrOverflow)`.
  abbrev pub error_received : E → Bool → Collector K E → Collector K E
  error_received e true c = overflowed e (record c { overflows = incr64 c.overflows })
  error_received e false c = on_observer (send_error (native_error e)) c
