-- ===== src/Tracker/Interleaved.antt =====
-- The run loop of tracker.go with `addDirty` in its parts: the reconciler may drain the set, and
-- end a reconciliation, whenever the loop has released the lock of the set.
use fsrecon.Prelude.{
  ℕ, ◌≡◌, refl, Bool, true, false, not, ◌||◌, Str, Option, none, some, List, [], ◌∷◌, ltb,
  if◌then◌else◌,
}
use fsrecon.Delivery.{incr64}
use fsrecon.Dirtyset.{Set, add, len}
use fsrecon.Normalize.{RawEvent, Hint, normalize}
use fsrecon.Tracker.{
  TrackerState, state_created, state_starting, state_syncing, state_synced, state_dirty,
  state_reconciling, state_stopped, state_degraded, mark_dirty, mark_backend_unhealthy,
  set_consistent_state, set_dirty_pending, set_state,
}
use fsrecon.Tracker.Loop.{
  Loop, send_error, handle_backend_error, wake_reconciler, quiet_elapsed, take_dirty, add_dirty,
}

-- What the loop does after `addDirty`: `quiet.Trigger` or `wakeReconciler`.
pub data After : Type 0 where
  triggers wakes : After

-- Where the loop stands in `addDirty`: at its end, after `Unlock` with the variables `changed` and
-- `count`, before `markDirty`, and after it.
pub data Phase : Type 0 where
  waiting : Phase
  unlocked : Bool → ℕ → After → Phase
  unmarked marked : After → Phase

pub record Split (E : Type 0) : Type 0 where
  pub loop : Loop E
  pub phase : Phase

module _ {E : Type 0} where
  abbrev pub added : After → Bool × Set → Loop E → Split E
  added after (changed, dirty) l = record {
    loop = record l { dirty = dirty };
    phase = unlocked changed (len dirty) after;
  }

  -- `addDirty` up to `Unlock`.
  unfoldable pub put_dirty : Str → After → Loop E → Split E
  put_dirty path after l = added after (add path l.dirty) l

  abbrev pub note_count : Bool → ℕ → Loop E → Loop E
  note_count changed count l = record l {
    dirty_paths = count;
    events_coalesced = if changed then l.events_coalesced else incr64 l.events_coalesced;
    life = set_dirty_pending (ltb 0 count) l.life;
  }

  abbrev pub go_on : After → Loop E → Loop E
  go_on triggers l = record l { armed = true }
  go_on wakes l = wake_reconciler l

  -- The next part of `addDirty`, or what follows it.
  abbrev pub proceed : Phase → Loop E → Split E
  proceed waiting l = record { loop = l; phase = waiting }
  proceed (unlocked changed count after) l = record {
    loop = note_count changed count l;
    phase = unmarked after;
  }
  proceed (unmarked after) l = record {
    loop = record l { life = mark_dirty l.life };
    phase = marked after;
  }
  proceed (marked after) l = record { loop = go_on after l; phase = waiting }

  abbrev pub put_hint : Option Hint → Loop E → Split E
  put_hint none l = record { loop = l; phase = waiting }
  put_hint (some hint) l = put_dirty hint.scope triggers l

-- A case of the loop's `select`, the next part of `addDirty`, and the steps of the reconciler: it
-- takes the dirty set, and a reconciliation begins, succeeds or fails.
pub data Part (E : Type 0) : Type 0 where
  sees : RawEvent → Part E
  closes : E → Part E
  fails : E → Bool → Part E
  elapses ticks proceeds takes begins succeeds gives_up : Part E

-- The loop takes the next case when it is through with the last.
abbrev pub is_waiting : Phase → Bool
is_waiting waiting = true
is_waiting (unlocked changed count after) = false
is_waiting (unmarked after) = false
is_waiting (marked after) = false

module _ {E : Type 0} where
  abbrev pub when_waiting : Split E → Split E → Split E
  when_waiting next s = if is_waiting s.phase then next else s

  abbrev pub on_loop : (Loop E → Loop E) → Split E → Split E
  on_loop f s = record s { loop = f s.loop }

  abbrev pub close_events : E → Loop E → Split E
  close_events e l =
      if l.stopped_reported
      then record { loop = l; phase = waiting }
      else put_dirty l.root wakes (
          send_error e (record l { stopped_reported = true; life = mark_backend_unhealthy l.life }))

  abbrev pub part : Part E → Split E → Split E
  part (sees raw) s =
      when_waiting
        (put_hint (normalize s.loop.root raw)
          (record s.loop { events_received = incr64 s.loop.events_received }))
        s
  part (closes e) s = when_waiting (close_events e s.loop) s
  part (fails e overflow) s =
      when_waiting (put_dirty s.loop.root wakes (handle_backend_error e overflow s.loop)) s
  part elapses s = when_waiting (on_loop quiet_elapsed s) s
  part ticks s = when_waiting (put_dirty s.loop.root wakes (record s.loop { armed = false })) s
  part proceeds s = proceed s.phase s.loop
  part takes s = on_loop take_dirty s
  part begins s = on_loop (λ l. record l { life = set_state state_reconciling l.life }) s
  part succeeds s = on_loop (λ l. record l { life = set_consistent_state l.life }) s
  part gives_up s = on_loop (λ l. record l { life = mark_dirty l.life }) s

  unfoldable pub run_parts : List (Part E) → Split E → Split E
  run_parts [] s = s
  run_parts (x ∷ xs) s = run_parts xs (part x s)

  -- Without the reconciler in between, the parts make up `addDirty`.
  add_dirty-parts :
      (path : Str) (l : Loop E)
      → run_parts (proceeds ∷ proceeds ∷ []) (put_dirty path wakes l)
        ≡ record { loop = add_dirty path l; phase = marked wakes }
  unfolding run_parts put_dirty add_dirty
  add_dirty-parts path l = refl

abbrev pub is_synced : TrackerState → Bool
is_synced state_synced = true
is_synced state_created = false
is_synced state_starting = false
is_synced state_syncing = false
is_synced state_dirty = false
is_synced state_reconciling = false
is_synced state_stopped = false
is_synced state_degraded = false

abbrev pub is_unlocked : Phase → Bool
is_unlocked (unlocked changed count after) = true
is_unlocked waiting = false
is_unlocked (unmarked after) = false
is_unlocked (marked after) = false

abbrev pub is_unmarked : Phase → Bool
is_unmarked (unmarked after) = true
is_unmarked waiting = false
is_unmarked (unlocked changed count after) = false
is_unmarked (marked after) = false

-- The count that is going to be stored.
abbrev pub is_counted : Phase → Bool
is_counted (unlocked changed count after) = ltb 0 count
is_counted waiting = true
is_counted (unmarked after) = true
is_counted (marked after) = true

-- While directories are dirty: the reconciler is going to be woken, the flag is set and the state
-- is not SYNCED, or the loop is about to see to it.
abbrev pub IsNoticed : {E : Type 0} → Split E → Type 0
IsNoticed s =
    (not (ltb 0 (len s.loop.dirty)) || s.loop.wake || s.loop.armed || not (is_waiting s.phase)
      ≡ true)
    × (not (ltb 0 (len s.loop.dirty)) || s.loop.life.dirty_pending || is_unlocked s.phase ≡ true)
    × (not (ltb 0 (len s.loop.dirty))
          || not (is_synced s.loop.life.state)
          || is_unlocked s.phase
          || is_unmarked s.phase
        ≡ true)
    × (not (ltb 0 (len s.loop.dirty)) || is_counted s.phase ≡ true)
    × (not s.loop.life.closed || not (is_synced s.loop.life.state) ≡ true)
