-- ===== src/Tracker/Loop.antt =====
-- The run loop of tracker.go and the reconciler beside it, with the timer of
-- internal/debounce/debounce.go. One case of a `select` is one step: the reconciler takes its turns
-- between the steps of the loop, in any order. That it may also run within one, after `addDirty` has
-- released its lock, is in Tracker/Interleaved.
use fsrecon.Prelude.{
  ℕ, ◌≡◌, arith, Bool, true, false, not, ◌||◌, Str, Option, none, some, List, [], ◌∷◌, ◌++◌, length,
  ltb, if◌then◌else◌,
}
use fsrecon.Delivery.{incr64}
use fsrecon.Event.{Event, EventKind, event_overflow, event_rescan_required, source_watcher}
use fsrecon.Dirtyset.{Set, add, drain, len}
use fsrecon.Normalize.{RawEvent, Hint, normalize}
use fsrecon.Tracker.{Life, mark_dirty, mark_backend_unhealthy, set_dirty_pending}

-- What the loop and the reconciler share, and the loop's own variables. `wake` is the channel with
-- room for one wake-up, `armed` is the debounce timer: is it running?
pub record Loop (E : Type 0) : Type 0 where
  pub root : Str
  pub life : Life
  pub dirty : Set
  pub wake : Bool
  pub armed : Bool
  pub stopped_reported : Bool
  pub events : List Event
  pub event_buffer : ℕ
  pub errors : List E
  pub events_received : ℕ
  pub events_coalesced : ℕ
  pub dirty_paths : ℕ
  pub backend_overflows : ℕ
  pub events_dropped : ℕ
  pub scopes : List Str

abbrev pub watcher_event : EventKind → Str → Event
watcher_event kind path = record {
  kind = kind;
  path = path;
  old_path = [];
  before = none;
  after = none;
  source = source_watcher;
}

module _ {E : Type 0} where
  -- `sendError`; the channel holds 16 errors.
  abbrev pub send_error : E → Loop E → Loop E
  send_error e l = if ltb (length l.errors) 16 then record l { errors = l.errors ++ e ∷ [] } else l

  abbrev pub publish : Event → Loop E → Loop E
  publish event l =
      if ltb (length l.events) l.event_buffer
      then record l { events = l.events ++ event ∷ [] }
      else record l { events_dropped = incr64 l.events_dropped }

  abbrev pub noted_dirty : Bool × Set → Loop E → Loop E
  noted_dirty (changed, dirty) l = record l {
    dirty = dirty;
    dirty_paths = len dirty;
    events_coalesced = if changed then l.events_coalesced else incr64 l.events_coalesced;
    life = mark_dirty (set_dirty_pending (ltb 0 (len dirty)) l.life);
  }

  -- `addDirty`
  unfoldable pub add_dirty : Str → Loop E → Loop E
  add_dirty path l = noted_dirty (add path l.dirty) l

  -- `wakeReconciler`: a wake-up that waits already is enough.
  abbrev pub wake_reconciler : Loop E → Loop E
  wake_reconciler l = record l { wake = true }

  abbrev pub on_hint : Option Hint → Loop E → Loop E
  on_hint none l = l
  on_hint (some hint) l = record (add_dirty hint.scope l) { armed = true }

  -- A raw event of the native watcher.
  unfoldable pub native_event : RawEvent → Loop E → Loop E
  unfolding add_dirty
  native_event raw l =
      on_hint (normalize l.root raw) (record l { events_received = incr64 l.events_received })

  -- The channel of raw events was closed, while the context is not cancelled.
  unfoldable pub native_closed : E → Loop E → Loop E
  unfolding add_dirty
  native_closed stopped l =
      if l.stopped_reported
      then l
      else wake_reconciler (
          add_dirty l.root (
            send_error stopped
              (record l { stopped_reported = true; life = mark_backend_unhealthy l.life })))

  -- `handleBackendError`; the Boolean is `errors.Is(err, ErrOverflow)`.
  unfoldable pub handle_backend_error : E → Bool → Loop E → Loop E
  handle_backend_error e overflow l =
      let reported = send_error e (record l { life = mark_dirty l.life }) in
      if overflow
      then publish (watcher_event event_rescan_required l.root) (
          publish (watcher_event event_overflow l.root)
            (record reported { backend_overflows = incr64 l.backend_overflows }))
      else reported

  unfoldable pub native_error : E → Bool → Loop E → Loop E
  unfolding handle_backend_error add_dirty
  native_error e overflow l = wake_reconciler (add_dirty l.root (handle_backend_error e overflow l))

  -- The debounce timer fires.
  unfoldable pub quiet_elapsed : Loop E → Loop E
  quiet_elapsed l = if l.armed then wake_reconciler (record l { armed = false }) else l

  -- The periodic ticker fires: the timer is stopped.
  unfoldable pub tick : Loop E → Loop E
  unfolding add_dirty
  tick l = wake_reconciler (add_dirty l.root (record l { armed = false }))

  abbrev pub drained : List Str × Set → Loop E → Loop E
  drained (scopes, dirty) l = record l {
    wake = false;
    dirty = dirty;
    dirty_paths = 0;
    life = set_dirty_pending false l.life;
    scopes = scopes;
  }

  -- The reconciler wakes up and takes the dirty set; what it reconciles next are the scopes.
  unfoldable pub take_dirty : Loop E → Loop E
  take_dirty l = if l.wake then drained (drain l.dirty) l else l

-- The steps of the loop and of the reconciler.
pub data Turn (E : Type 0) : Type 0 where
  sees : RawEvent → Turn E
  closes : E → Turn E
  fails : E → Bool → Turn E
  elapses ticks takes : Turn E

abbrev pub turn : {E : Type 0} → Turn E → Loop E → Loop E
turn (sees raw) l = native_event raw l
turn (closes e) l = native_closed e l
turn (fails e overflow) l = native_error e overflow l
turn elapses l = quiet_elapsed l
turn ticks l = tick l
turn takes l = take_dirty l

unfoldable pub run_loop : {E : Type 0} → List (Turn E) → Loop E → Loop E
run_loop [] l = l
run_loop (t ∷ turns) l = run_loop turns (turn t l)

-- Where there are dirty directories the reconciler is going to be woken: a wake-up waits, or the
-- timer runs.
abbrev pub IsAwake : {E : Type 0} → Loop E → Type 0
IsAwake l = not (ltb 0 (len l.dirty)) || l.wake || l.armed ≡ true

turn-IsAwake : {E : Type 0} (t : Turn E) (l : Loop E) → IsAwake l → IsAwake (turn t l)
unfolding native_event native_closed native_error handle_backend_error quiet_elapsed tick take_dirty
    add_dirty drain
turn-IsAwake (sees raw) l a = hinted (normalize l.root raw)
  where
    hinted :
        (h : Option Hint)
        → IsAwake (on_hint h (record l { events_received = incr64 l.events_received }))
    hinted none = a
    hinted (some hint) = ground arith
turn-IsAwake (closes e) l a = ground (arith, a)
turn-IsAwake (fails e overflow) l a = ground (arith, a)
turn-IsAwake elapses l a = ground (arith, a)
turn-IsAwake ticks l a = ground (arith, a)
turn-IsAwake takes l a = ground (arith, a)

-- Whatever turns the loop and the reconciler take, dirty directories are not forgotten: while there
-- are any, a wake-up waits for the reconciler or the debounce timer runs.
pub run_loop-IsAwake :
    {E : Type 0} (turns : List (Turn E)) (l : Loop E) → IsAwake l → IsAwake (run_loop turns l)
unfolding run_loop
run_loop-IsAwake [] l a = a
run_loop-IsAwake (t ∷ turns) l a = run_loop-IsAwake turns (turn t l) (turn-IsAwake t l a)
