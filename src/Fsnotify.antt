-- ===== src/Fsnotify.antt =====
-- internal/backend/fsnotify/backend.go: the native watcher, a pump between the library fsnotify,
-- which is a parameter, and two bounded channels. Each method that takes the mutex is a step, and
-- so is each turn of the pump. A send on a closed channel would panic: the state records it.
pub mod Safe
use fsrecon.Prelude.{
  ℕ, ◌+◌, Bool, true, false, not, ◌&&◌, ◌||◌, Str, Option, none, some, List, [], ◌∷◌, ◌++◌, length,
  ltb, ◌==◌, ◌⊎◌, inl, inr, Result, ok, err, if◌then◌else◌,
}
use fsrecon.FilePath.{clean}
use fsrecon.Normalize.{RawEvent}

-- `fsnotify.Op` by its five tests `Has`.
pub record NativeOp : Type 0 where
  pub create : Bool
  pub write : Bool
  pub remove : Bool
  pub rename : Bool
  pub chmod : Bool

-- The library: `NewBufferedWatcher`, `Watcher.Add`, `Remove` and `Close`, and tests of its errors:
-- `ErrNonExistentWatch`, `fs.ErrNotExist`, `os.IsNotExist`, `EINVAL` and `ErrEventOverflow`.
pub record Library (V E : Type 0) : Type 0 where
  pub new_watcher : ℕ → E ⊎ V
  pub add_watch : Str → V → Result E V
  pub remove_watch : Str → V → Result E V
  pub close_watcher : V → Result E V
  pub is_non_existent_watch : E → Bool
  pub is_not_exist : E → Bool
  pub os_is_not_exist : E → Bool
  pub is_invalid : E → Bool
  pub is_event_overflow : E → Bool
  pub on_linux : Bool

pub data NativeError (E : Type 0) : Type 0 where
  context_error backend_closed already_started not_running : NativeError E
  create_failed : E → NativeError E
  watch_failed remove_failed : Str → E → NativeError E
  queue_overflow : NativeError E
  event_overflow native_failed : E → NativeError E

pub record Native (V E : Type 0) : Type 0 where
  pub buffer : ℕ
  pub events : List RawEvent
  pub errors : List (NativeError E)
  pub watcher : Option V
  pub started : Bool
  pub closed : Bool
  pub native_closed : Bool
  pub outputs_closed : Bool
  pub pumping : Bool
  pub panicked : Bool

abbrev pub default_buffer : ℕ
default_buffer = 1024

-- `New`
unfoldable pub new : {V E : Type 0} → ℕ → Native V E
new buffer = record {
  buffer = if buffer == 0 then default_buffer else buffer;
  events = [];
  errors = [];
  watcher = none;
  started = false;
  closed = false;
  native_closed = false;
  outputs_closed = false;
  pumping = false;
  panicked = false;
}

abbrev pub bit : ℕ → Bool → ℕ
bit n true = n
bit n false = 0

-- `mapOp`
unfoldable pub map_op : NativeOp → ℕ
map_op op = bit 1 op.create + bit 2 op.write + bit 4 op.remove + bit 8 op.rename + bit 16 op.chmod

module _ {V E : Type 0} (library : Library V E) where
  abbrev pub pump_with : V → Native V E → Native V E
  pump_with v n = record n { watcher = some v; started = true; pumping = true }

  -- A watcher that does not watch the root is closed again, and forgotten.
  abbrev pub root_watched : Str → Native V E → Result E V → Result (NativeError E) (Native V E)
  root_watched root n (ok v) = ok (pump_with v n)
  root_watched root n (err e v) = err (watch_failed root e) n

  abbrev pub created_watcher : Str → Native V E → E ⊎ V → Result (NativeError E) (Native V E)
  created_watcher root n (inl e) = err (create_failed e) n
  created_watcher root n (inr v) = root_watched (clean root) n (library.add_watch (clean root) v)

  -- `Start`
  unfoldable pub start : Bool → Str → Native V E → Result (NativeError E) (Native V E)
  unfolding clean
  start cancelled root n =
      if cancelled
      then err context_error n
      else if n.closed
      then err backend_closed n
      else if n.started
      then err already_started n
      else created_watcher root n (library.new_watcher n.buffer)

  abbrev pub set_watcher : Native V E → V → Native V E
  set_watcher n v = record n { watcher = some v }

  abbrev pub watch_added : Str → Native V E → Result E V → Result (NativeError E) (Native V E)
  watch_added path n (ok v) = ok (set_watcher n v)
  watch_added path n (err e v) = err (watch_failed path e) (set_watcher n v)

  -- `Add`
  unfoldable pub add : Str → Native V E → Result (NativeError E) (Native V E)
  unfolding clean
  add path n = elim n.watcher [
    | none ↦ err not_running n
    | some v ↦
        if n.closed
        then err not_running n
        else watch_added path n (library.add_watch (clean path) v)
  ]

  unfoldable pub is_removed_watch_error : E → Bool
  is_removed_watch_error e =
      library.is_non_existent_watch e
      || library.is_not_exist e
      || library.os_is_not_exist e
      || library.on_linux && library.is_invalid e

  abbrev pub watch_removed : Str → Native V E → Result E V → Result (NativeError E) (Native V E)
  watch_removed path n (ok v) = ok (set_watcher n v)
  watch_removed path n (err e v) =
      if is_removed_watch_error e
      then ok (set_watcher n v)
      else err (remove_failed path e) (set_watcher n v)

  -- `Remove`
  unfoldable pub remove : Str → Native V E → Result (NativeError E) (Native V E)
  unfolding clean is_removed_watch_error
  remove path n = elim n.watcher [
    | none ↦ ok n
    | some v ↦ if n.closed then ok n else watch_removed path n (library.remove_watch (clean path) v)
  ]

  abbrev pub watcher_closed : Native V E → Result E V → Native V E
  watcher_closed n (ok v) = set_watcher n v
  watcher_closed n (err e v) = set_watcher n v

  -- `closeNative`, without its error.
  unfoldable pub close_native : Native V E → Native V E
  close_native n = if n.native_closed then n else (elim n.watcher [
    | none ↦ record n { native_closed = true }
    | some v ↦ watcher_closed (record n { native_closed = true }) (library.close_watcher v)
  ])

  -- `closeOutputs`
  abbrev pub close_outputs : Native V E → Native V E
  close_outputs n = record n { outputs_closed = true }

  -- `Close` up to its wait for the pump, and what follows the wait.
  unfoldable pub begin_close : Native V E → Native V E
  unfolding close_native
  begin_close n =
      let closed = record n { closed = true } in if n.started then close_native closed else closed

  unfoldable pub end_close : Native V E → Native V E
  end_close n = if n.closed && not n.pumping then close_outputs n else n

  -- `sendError`; the channel holds 16 errors.
  unfoldable pub send_error : NativeError E → Native V E → Native V E
  send_error e n =
      if n.outputs_closed
      then record n { panicked = true }
      else if ltb (length n.errors) 16
      then record n { errors = n.errors ++ e ∷ [] }
      else n

  abbrev pub offer_event : RawEvent → Native V E → Native V E
  offer_event raw n =
      if n.outputs_closed
      then record n { panicked = true }
      else if ltb (length n.events) n.buffer
      then record n { events = n.events ++ raw ∷ [] }
      else send_error queue_overflow n

  -- The turns of `pump`: an event, an error, and its end, when the context is done or a channel of
  -- the library is closed.
  unfoldable pub pump_event : Str → NativeOp → Native V E → Native V E
  unfolding clean map_op send_error
  pump_event name op n =
      if map_op op == 0 then n else offer_event (record { path = clean name; op = map_op op }) n

  unfoldable pub pump_error : E → Native V E → Native V E
  unfolding send_error
  pump_error e n =
      send_error (if library.is_event_overflow e then event_overflow e else native_failed e) n

  unfoldable pub pump_end : Native V E → Native V E
  unfolding close_native
  pump_end n = record (close_outputs (close_native n)) { pumping = false }
