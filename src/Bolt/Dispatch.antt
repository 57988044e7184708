-- ===== src/Bolt/Dispatch.antt =====
-- reconcile.go: `reconcileScopes` on a tracker whose store may be a `BoltStore`, and which of the
-- two reconciliations it takes. The generic one reaches the same store through its ports.
use fsrecon.Prelude.{
  Bool, false, not, ◌&&◌, Str, Option, none, some, is_some, List, [], ◌∷◌, str_eq, ok, err,
  if◌then◌else◌, ◌⊎◌, inl, inr,
}
use fsrecon.Delivery.{incr64}
use fsrecon.Event.{zero_report}
use fsrecon.Scopes.{collapse_scopes}
use fsrecon.Config.{Config, Ports}
use fsrecon.Watchtree.{Backend}
use fsrecon.Tracker.{set_state, state_reconciling}
use fsrecon.Reconcile.{
  Pending, pending_reconcile, pending_integrity, Tracker, Reply, err_closed, on_life,
}
use fsrecon.Reconcile.Gather.{new_run}
use fsrecon.Reconcile.Commit.{begin_generation, resume_pending, resume_pending_integrity}
use fsrecon.Bolt.{Engine}
use fsrecon.Bolt.Json.{Json}
use fsrecon.Bolt.Snapshot.{BoltStore}
use fsrecon.Bolt.Reconcile.{IndexPorts, BoltReply, reconcile_bolt_locked}

-- The one scope that the path by way of an index takes, the root.
abbrev pub is_root_alone : Str → List Str → Bool
is_root_alone root [] = false
is_root_alone root (scope ∷ []) = str_eq scope root
is_root_alone root (scope ∷ other ∷ scopes) = false

module _ {W K E B C F : Type 0} (config : Config W E) (ports : Ports W E) (backend : Backend K E)
    (states : Engine B Json F) (paths : Engine C Str F) (index_ports : IndexPorts B C F) where
  -- What a call returns: the reply of the generic path, or of the other.
  abbrev pub Answer : Type 0
  Answer = Reply W K E ⊎ BoltReply W K B E F

  -- The store, where it is a `BoltStore` and the call may take the path by way of an index.
  unfoldable pub fast_store : Option (BoltStore B) → List Str → Option (BoltStore B)
  unfolding collapse_scopes str_eq
  fast_store store requested =
      if not (is_some config.change_sink)
        && is_root_alone config.root (collapse_scopes config.root requested)
      then store
      else none

  -- A new generation.
  unfoldable pub begin_on_store : Option (BoltStore B) → List Str → Tracker W K → Answer
  unfolding fast_store begin_generation reconcile_bolt_locked
  begin_on_store store requested t = elim (fast_store store requested) [
    | none ↦ inl (begin_generation config ports backend requested t)
    | some s ↦ inr (
        reconcile_bolt_locked config ports backend states paths index_ports s
          (new_run config.root (incr64 t.generation) (on_life (set_state state_reconciling) t)))
  ]

  unfoldable pub resume_on_store : Option (BoltStore B) → Pending → List Str → Tracker W K → Answer
  unfolding begin_on_store resume_pending resume_pending_integrity
  resume_on_store store p requested t = elim p.kind [
    | pending_reconcile ↦ inl (resume_pending config ports p t)
    | pending_integrity ↦ elim (resume_pending_integrity config ports p t) [
      | err e t' ↦ inl (record { report = zero_report; error = some e; tracker = t' })
      | ok t' ↦ begin_on_store store requested t'
    ]
  ]

  -- `reconcileScopes`
  unfoldable pub reconcile_on_store : Option (BoltStore B) → List Str → Tracker W K → Answer
  unfolding begin_on_store resume_on_store
  reconcile_on_store store requested t =
      if t.life.closed
      then inl (record { report = zero_report; error = some err_closed; tracker = t })
      else (elim t.pending [
        | none ↦ begin_on_store store requested t
        | some p ↦ resume_on_store store p requested t
      ])
