-- ===== src/Tracker.antt =====
-- tracker.go: the lifecycle of a tracker, the fields behind its mutex `mu` and the flag
-- `dirtyPending`. Each method that takes the mutex is one step; so is a store to the flag.
-- The cancelling of the context, the waiting for goroutines and the closing of channels are left out.
pub mod Lifecycle
pub mod Loop
pub mod Interleaved
pub mod Create
pub mod Accepted
use fsrecon.Prelude.{Bool, true, false, not, ◌&&◌, Result, ok, err, if◌then◌else◌}

pub data TrackerState : Type 0 where
  state_created state_starting state_syncing state_synced state_dirty : TrackerState
  state_reconciling state_stopped state_degraded : TrackerState

pub record Life : Type 0 where
  pub state : TrackerState
  pub started : Bool
  pub closed : Bool
  pub backend_healthy : Bool
  pub dirty_pending : Bool

-- The fields after `New`.
abbrev pub new_life : Life
new_life = record {
  state = state_created;
  started = false;
  closed = false;
  backend_healthy = false;
  dirty_pending = false;
}

pub data LifeError : Type 0 where
  err_closed err_already_started : LifeError

-- `setState`
unfoldable pub set_state : TrackerState → Life → Life
set_state state l = if l.closed then l else record l { state = state }

unfoldable pub mark_backend_unhealthy : Life → Life
mark_backend_unhealthy l =
    if l.closed then l else record l { backend_healthy = false; state = state_degraded }

unfoldable pub mark_dirty : Life → Life
mark_dirty l =
    if l.closed
    then l
    else if l.started && not l.backend_healthy
    then record l { state = state_degraded }
    else record l { state = state_dirty }

unfoldable pub set_consistent_state : Life → Life
set_consistent_state l =
    if l.closed
    then l
    else if l.started && not l.backend_healthy
    then record l { state = state_degraded }
    else if l.dirty_pending
    then record l { state = state_dirty }
    else record l { state = state_synced }

-- The first critical section of `Start`.
unfoldable pub begin : Life → Result LifeError Life
begin l =
    if l.closed
    then err err_closed l
    else if l.started
    then err err_already_started l
    else ok (record l { started = true; state = state_starting })

-- `Start` once the native watcher runs.
unfoldable pub attach_backend : Life → Life
attach_backend l = record l { backend_healthy = true }

-- `stopFromContext`, and `Close` where the tracker is not closed yet.
unfoldable pub stop : Life → Life
stop l = record l { closed = true; state = state_stopped }

-- `Close`: a second call changes nothing.
unfoldable pub close : Life → Life
unfolding stop
close l = if l.closed then l else stop l

unfoldable pub set_dirty_pending : Bool → Life → Life
set_dirty_pending b l = record l { dirty_pending = b }
