-- ===== src/Observer.antt =====
-- observer.go and observer_types.go: the hints of an observer that wait for a bounded channel.
-- Each method that takes `pendingMu` is one step; times are left out.
pub mod Bounds
pub mod Announced
pub mod Collect
pub mod Collected
pub mod Start
use fsrecon.Prelude.{
  ℕ, Bool, true, false, ◌&&◌, Str, Map, Option, none, some, List, [], ◌∷◌, ◌++◌, str_eq, has, put,
  length, ltb, leb, ◌==◌, if◌then◌else◌,
}
use fsrecon.Delivery.{incr64}

pub data HintScope : Type 0 where
  hint_path hint_subtree : HintScope

pub data HintCause : Type 0 where
  hint_native_change hint_startup hint_overflow hint_backend_stopped : HintCause

abbrev pub cause_code : HintCause → ℕ
cause_code hint_native_change = 0
cause_code hint_startup = 1
cause_code hint_overflow = 2
cause_code hint_backend_stopped = 3

pub record Hint : Type 0 where
  pub path : Str
  pub scope : HintScope
  pub cause : HintCause

pub data ObserverState : Type 0 where
  observer_created observer_starting observer_running observer_degraded observer_stopped :
      ObserverState

pub record Observer (E : Type 0) : Type 0 where
  pub root : Str
  pub hint_buffer : ℕ
  pub max_pending_hints : ℕ
  pub state : ObserverState
  pub hints : List Hint
  pub errors : List E
  pub pending : Map Hint
  pub root_pending : Bool
  pub root_hint : Hint
  pub emitted : ℕ
  pub coalesced : ℕ
  pub dropped : ℕ

abbrev pub root_hint_of : Str → HintCause → Hint
root_hint_of root cause = record { path = root; scope = hint_subtree; cause = cause }

-- `mergeHintCause`: the cause with the larger code.
unfoldable pub merge_hint_cause : HintCause → HintCause → HintCause
merge_hint_cause a b = if ltb (cause_code a) (cause_code b) then b else a

abbrev pub is_subtree : HintScope → Bool
is_subtree hint_subtree = true
is_subtree hint_path = false

abbrev pub is_observer_stopped : ObserverState → Bool
is_observer_stopped observer_stopped = true
is_observer_stopped s = false

abbrev pub tail_hints : List Hint → List Hint
tail_hints [] = []
tail_hints (h ∷ hints) = hints

module _ {E : Type 0} where
  -- `trySend`: is there room, and the observer after it.
  unfoldable pub try_send : Hint → Observer E → Bool × Observer E
  try_send h o =
      if ltb (length o.hints) o.hint_buffer
      then (true, record o { hints = o.hints ++ h ∷ []; emitted = incr64 o.emitted })
      else (false, record o { dropped = incr64 o.dropped })

  abbrev pub sent_root : Bool × Observer E → Observer E
  sent_root (true, o) = record o { root_pending = false }
  sent_root (false, o) = o

  -- The loop over the pending hints: `rest` are those that the loop has still to look at, and they
  -- are what stays pending when it stops.
  unfoldable pub send_pending : Map Hint → Observer E → Observer E
  unfolding try_send
  send_pending [] o = record o { pending = [] }
  send_pending ((path, h) ∷ rest) o =
      let (sent, o') = try_send h o in
      let more = send_pending rest o' in
      if sent then more else record o' { pending = (path, h) ∷ rest }

  unfoldable pub flush : Observer E → Observer E
  unfolding send_pending
  flush o = if o.root_pending then sent_root (try_send o.root_hint o) else send_pending o.pending o

  -- Make a hint the root's, in place of all that wait.
  abbrev pub take_root : Hint → Observer E → Observer E
  take_root h o = record o {
    root_hint =
        if o.root_pending
        then record h { cause = merge_hint_cause o.root_hint.cause h.cause }
        else h;
    root_pending = true;
    pending = [];
  }

  -- `escalateRootLocked`
  unfoldable pub escalate_root : HintCause → Observer E → Observer E
  unfolding merge_hint_cause
  escalate_root cause o = take_root (root_hint_of o.root cause) o

  unfoldable pub enqueue : Hint → Observer E → Observer E
  unfolding escalate_root
  enqueue h o =
      if is_subtree h.scope && str_eq h.path o.root
      then take_root h o
      else if o.root_pending
      then o
      else if has o.pending h.path
      then record o { coalesced = incr64 o.coalesced }
      else if leb o.max_pending_hints (length o.pending)
      then escalate_root hint_native_change o
      else record o { pending = put o.pending h.path h }

  -- `sendError`; the channel holds 16 errors.
  unfoldable pub send_error : E → Observer E → Observer E
  send_error e o = if ltb (length o.errors) 16 then record o { errors = o.errors ++ e ∷ [] } else o

  unfoldable pub set_observer_state : ObserverState → Observer E → Observer E
  set_observer_state s o = if is_observer_stopped o.state then o else record o { state = s }

  unfoldable pub degrade : E → Observer E → Observer E
  unfolding set_observer_state enqueue send_error
  degrade e o =
      send_error e (
        enqueue (root_hint_of o.root hint_backend_stopped) (set_observer_state observer_degraded o))

  unfoldable pub pending_count : Observer E → ℕ
  pending_count o = if o.root_pending then 1 else length o.pending

  -- A consumer takes the first hint from the channel.
  unfoldable pub receive : Observer E → Observer E
  receive o = record o { hints = tail_hints o.hints }
