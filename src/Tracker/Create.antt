-- ===== src/Tracker/Create.antt =====
-- tracker.go, observer.go and session.go: what `New` and `NewObserver` accept, and how a tracker
-- starts. An `int` of a configuration is an integer, the code of a policy a natural number.
use fsrecon.Prelude.{
  ℕ, ◌⊎◌, inl, inr, ◌/◌, ◌%◌, ◌+◌, Bool, true, false, not, ◌&&◌, ◌||◌, Str, Option, none, some, [],
  ◌∷◌, str_eq, ltb, ◌==◌, Result, ok, err, if◌then◌else◌,
}
use fsrecon.FilePath.{clean}
use fsrecon.Expected.{is_blank}
use fsrecon.Scanner.Walk.{
  SymlinkPolicy, ignore_symlinks, report_symlinks, follow_symlinks, reject_symlinks,
}
use fsrecon.Observer.{Observer, observer_created, root_hint_of, hint_native_change}
use fsrecon.Tracker.{
  Life, LifeError, begin, attach_backend, set_state, stop, state_dirty, state_syncing,
}

pub data ℤ : Type 0 where
  pos negsuc : ℕ → ℤ

abbrev pub is_negative : ℤ → Bool
is_negative (pos n) = false
is_negative (negsuc n) = true

-- A limit, or its default where it is zero.
abbrev pub limit_or : ℕ → ℤ → ℕ
limit_or d (pos n) = if n == 0 then d else n
limit_or d (negsuc n) = d

-- The byte of a hexadecimal digit.
abbrev pub hex_digit : ℕ → ℕ
hex_digit n = if ltb n 10 then n + b'0' else n + 87

-- `hex.EncodeToString`
unfoldable pub hex : Str → Str
hex [] = []
hex (c ∷ s) = hex_digit (c / 16 % 16) ∷ hex_digit (c % 16) ∷ hex s

-- `newSessionID`, from 16 random bytes.
unfoldable pub new_session_id : {E : Type 0} → E ⊎ Str → E ⊎ Str
unfolding hex
new_session_id (inl e) = inl e
new_session_id (inr random) = inr (hex random)

-- `Config` as it is given; whether a store is a `BatchSnapshotStore`, where there is one.
pub record RawConfig : Type 0 where
  pub root : Str
  pub has_sink : Bool
  pub store_is_batch : Option Bool
  pub symlink_policy : ℕ
  pub hardlink_policy : ℕ
  pub expected_scope : ℕ
  pub debounce_window : ℤ
  pub reconcile_interval : ℤ
  pub event_buffer : ℤ
  pub report_event_limit : ℤ
  pub change_batch_size : ℤ

-- What a tracker keeps of it.
pub record Settings : Type 0 where
  pub root : Str
  pub session_id : Str
  pub debounce_window : ℕ
  pub event_buffer : ℕ
  pub report_event_limit : ℕ
  pub change_batch_size : ℕ

pub data NewError (E : Type 0) : Type 0 where
  root_required invalid_event_buffer invalid_report_limit invalid_batch_size : NewError E
  invalid_interval invalid_window invalid_symlinks invalid_hardlinks invalid_scope : NewError E
  atomic_store_required : NewError E
  session_failed resolve_failed : E → NewError E

-- The checks of `New` on its argument alone, in order.
unfoldable pub config_error : {E : Type 0} → RawConfig → Option (NewError E)
config_error c =
    if is_blank c.root
    then some root_required
    else if is_negative c.event_buffer
    then some invalid_event_buffer
    else if is_negative c.report_event_limit
    then some invalid_report_limit
    else if is_negative c.change_batch_size
    then some invalid_batch_size
    else if is_negative c.reconcile_interval
    then some invalid_interval
    else if is_negative c.debounce_window
    then some invalid_window
    else if ltb 3 c.symlink_policy
    then some invalid_symlinks
    else if ltb 2 c.hardlink_policy
    then some invalid_hardlinks
    else if ltb 1 c.expected_scope
    then some invalid_scope
    else none

-- A missing store is a `MemoryStore`, which takes batches.
abbrev pub takes_batches : Option Bool → Bool
takes_batches none = true
takes_batches (some b) = b

abbrev pub settings_of : RawConfig → Str → Str → Settings
settings_of c session_id root = record {
  root = clean root;
  session_id = session_id;
  debounce_window = limit_or 100000000 c.debounce_window;
  event_buffer = limit_or 256 c.event_buffer;
  report_event_limit = limit_or 10000 c.report_event_limit;
  change_batch_size = limit_or 256 c.change_batch_size;
}

module _ {E : Type 0} (abs : Str → E ⊎ Str) (random : E ⊎ Str) where
  abbrev pub with_root : RawConfig → Str → E ⊎ Str → NewError E ⊎ Settings
  with_root c session_id (inl e) = inl (resolve_failed e)
  with_root c session_id (inr root) =
      if c.has_sink && not (takes_batches c.store_is_batch)
      then inl atomic_store_required
      else inr (settings_of c session_id root)

  abbrev pub with_session : RawConfig → E ⊎ Str → NewError E ⊎ Settings
  with_session c (inl e) = inl (session_failed e)
  with_session c (inr session_id) = with_root c session_id (abs c.root)

  abbrev pub unless_refused : RawConfig → Option (NewError E) → NewError E ⊎ Settings
  unless_refused c (some e) = inl e
  unless_refused c none = with_session c (new_session_id random)

  -- `New`, with `filepath.Abs` and the random bytes.
  unfoldable pub new_tracker : RawConfig → NewError E ⊎ Settings
  unfolding config_error new_session_id clean
  new_tracker c = unless_refused c (config_error c)

-- `scannerPolicy`, from the code of a policy.
abbrev pub scanner_policy : ℕ → SymlinkPolicy
scanner_policy n =
    if n == 1
    then report_symlinks
    else if n == 2
    then follow_symlinks
    else if n == 3
    then reject_symlinks
    else ignore_symlinks

pub data StartError (E F : Type 0) : Type 0 where
  not_startable : LifeError → StartError E F
  watcher_failed : E → StartError E F
  reconcile_failed : F → StartError E F

-- `Start`: the native watcher's error, if any, and the reconciliation, on the lifecycle, with its
-- error. Where that fails, the context is cancelled and the run loop stops the tracker.
module _ {E F : Type 0} where
  abbrev pub reconciled : Life × Option F → Result (StartError E F) Life
  reconciled (l, none) = ok l
  reconciled (l, some e) = err (reconcile_failed e) (stop (set_state state_dirty l))

  abbrev pub with_backend :
      (Life → Life × Option F) → Life → Option E → Result (StartError E F) Life
  with_backend reconcile l (some e) = err (watcher_failed e) (set_state state_dirty l)
  with_backend reconcile l none =
      reconciled (reconcile (set_state state_syncing (attach_backend l)))

  abbrev pub begun :
      (Life → Life × Option F) → Option E → Result LifeError Life → Result (StartError E F) Life
  begun reconcile native (ok l) = with_backend reconcile l native
  begun reconcile native (err e l) = err (not_startable e) l

  unfoldable pub start : (Life → Life × Option F) → Option E → Life → Result (StartError E F) Life
  unfolding begin attach_backend set_state stop
  start reconcile native l = begun reconcile native (begin l)

-- `NewObserver`
pub record RawObserverConfig : Type 0 where
  pub root : Str
  pub symlink_policy : SymlinkPolicy
  pub debounce_window : ℤ
  pub hint_buffer : ℤ
  pub max_pending_hints : ℤ

pub data NewObserverError (E : Type 0) : Type 0 where
  observer_root_required follow_symlinks_unsupported invalid_observer_limits : NewObserverError E
  absolute_failed : E → NewObserverError E

abbrev pub follows : SymlinkPolicy → Bool
follows follow_symlinks = true
follows ignore_symlinks = false
follows report_symlinks = false
follows reject_symlinks = false

abbrev pub observer_of : {X : Type 0} → RawObserverConfig → Str → Observer X
observer_of c root = record {
  root = root;
  hint_buffer = limit_or 256 c.hint_buffer;
  max_pending_hints = limit_or 10000 c.max_pending_hints;
  state = observer_created;
  hints = [];
  errors = [];
  pending = [];
  root_pending = false;
  root_hint = root_hint_of [] hint_native_change;
  emitted = 0;
  coalesced = 0;
  dropped = 0;
}

abbrev pub absolute_observer :
    {E X : Type 0} → RawObserverConfig → E ⊎ Str → NewObserverError E ⊎ Observer X
absolute_observer c (inl e) = inl (absolute_failed e)
absolute_observer c (inr root) = inr (observer_of c (clean root))

unfoldable pub new_observer :
    {E X : Type 0} → (Str → E ⊎ Str) → RawObserverConfig → NewObserverError E ⊎ Observer X
unfolding clean
new_observer abs c =
    if str_eq c.root []
    then inl observer_root_required
    else if follows c.symlink_policy
    then inl follow_symlinks_unsupported
    else if is_negative c.hint_buffer
        || is_negative c.max_pending_hints
        || is_negative c.debounce_window
    then inl invalid_observer_limits
    else absolute_observer c (abs c.root)
