-- ===== src/Reconcile/Order.antt =====
-- reconcile.go: what a generation does to the outside world, and in which order: first the batches
-- that the sink is offered, then, if it took them all, the snapshot.
use fsrecon.Prelude.{
  ℕ, ◌≡◌, refl, ◌∙◌, ap, arith, none, some, List, [], ◌∷◌, Result, ok, err, ◌>>=◌, Result-cases,
  inl, inr,
}
use fsrecon.Event.{Event, ChangeBatch}
use fsrecon.Delivery.{Sink, DeliveryError, deliver, new_change_batcher}
use fsrecon.Delivery.Batches.{cut, offer, deliver-offer}
use fsrecon.Config.{Config, Ports}
use fsrecon.Reconcile.{Pending, Tracker, Failure, delivery_failed, Reply, send_event, send_events}
use fsrecon.Reconcile.Gather.{Run}
use fsrecon.Reconcile.Commit.{
  send_generation, deliver_pending, apply_snapshot, apply_in, in_run, deliver_run, apply_run,
  complete, pending_of, deletes_of, values, reply_of,
}

-- A delivery's failure as one of the reconciliation.
abbrev pub named : {W E : Type 0} → Result (DeliveryError E) W → Result (Failure E) W
named (ok w) = ok w
named (err e w) = err (delivery_failed e) w

-- A tracker whose world is what a commit leaves.
abbrev pub in_world :
    {W B E : Type 0} → Tracker W B → Result (Failure E) W → Result (Failure E) (Tracker W B)
in_world t (ok w) = ok (record t { world = w })
in_world t (err e w) = err e (record t { world = w })

module _ {W E : Type 0} (config : Config W E) (ports : Ports W E) (sink : Sink E W) where
  -- The batches of a generation, numbered from zero.
  abbrev pub batches : Pending → List ChangeBatch
  batches p = cut p.session_id p.generation config.change_batch_size 0 [] p.events

  -- The batches are offered in order, and the snapshot changes if none is refused.
  unfoldable pub commit_world : Pending → W → Result (Failure E) W
  commit_world p w = named (offer sink (batches p) w) >>= apply_snapshot ports p.puts p.deletes

module _ {W B E : Type 0} (config : Config W E) (ports : Ports W E) (sink : Sink E W) where
  send_generation-offer :
      (p : Pending) (t : Tracker W B)
      → send_generation config ports (some sink) p t
        ≡ in_world t (named (offer sink (batches config ports sink p) t.world))
  unfolding send_generation
  send_generation-offer p t =
      let b = new_change_batcher p.session_id p.generation config.change_batch_size t.world in
      let same = deliver-offer sink p.events b in
      elim (Result-cases (deliver (some sink) p.events b)) [
        | inl (b', e) ↦ ground arith
        | inr (x, b', e) ↦ ground arith
      ]

  pub commit-world :
      (p : Pending) (t : Tracker W B)
      → (send_generation config ports (some sink) p t >>= apply_in config ports p.puts p.deletes)
        ≡ in_world t (commit_world config ports sink p t.world)
  unfolding apply_in commit_world
  commit-world p t =
      rw (send_generation-offer p t)
        (elim (Result-cases (offer sink (batches config ports sink p) t.world)) [
          | inl (w, e) ↦ elim (Result-cases (apply_snapshot ports p.puts p.deletes w)) [
            | inl (w', f) ↦ ground arith
            | inr (x, w', f) ↦ ground arith
          ]
          | inr (x, w, e) ↦ ground arith
        ])

-- Publishing events touches the channel and the counters only.
abbrev pub SameButEvents : {W B : Type 0} → Tracker W B → Tracker W B → Type 0
SameButEvents t u =
    (u.world ≡ t.world)
    × (u.pending ≡ t.pending)
    × (u.generation ≡ t.generation)
    × (u.life ≡ t.life)

send_event-keeps :
    {W B : Type 0} (buffer : ℕ) (event : Event) (t : Tracker W B)
    → SameButEvents t (send_event buffer event t)
unfolding send_event
send_event-keeps buffer event t = (ground arith, ground arith, ground arith, ground arith)

pub send_events-keeps :
    {W B : Type 0} (buffer : ℕ) (events : List Event) (t : Tracker W B)
    → SameButEvents t (send_events buffer events t)
unfolding send_events
send_events-keeps buffer [] t = (refl, refl, refl, refl)
send_events-keeps buffer (event ∷ events) t =
    let (a, b, c, d) = send_events-keeps buffer events (send_event buffer event t) in
    let (a', b', c', d') = send_event-keeps buffer event t in (a ∙ a', b ∙ b', c ∙ c', d ∙ d')

-- How a generation ends, from what happened to the world. After a failure the generation is the
-- pending one, and the tracker's number is still the old one.
abbrev pub IsCommitted :
    {W B E : Type 0} → Pending → ℕ → Result (Failure E) W → Reply W B E → Type 0
IsCommitted p old (ok w) reply =
    (reply.error ≡ none)
    × (reply.tracker.world ≡ w)
    × (reply.tracker.pending ≡ none)
    × (reply.tracker.generation ≡ p.generation)
IsCommitted p old (err f w) reply =
    (reply.error ≡ some f)
    × (reply.tracker.world ≡ w)
    × (reply.tracker.pending ≡ some p)
    × (reply.tracker.generation ≡ old)

module _ {W B E : Type 0} (config : Config W E) (ports : Ports W E) (sink : Sink E W) where
  in_run-twice :
      (r : Run W B) (t : Tracker W B) (x : Result (Failure E) (Tracker W B))
      → in_run (record r { tracker = t }) x ≡ in_run r x
  in_run-twice r t (ok u) = refl
  in_run-twice r t (err e u) = refl

  apply_run-in_run :
      (r : Run W B) (x : Result (Failure E) (Tracker W B))
      → (in_run r x >>= apply_run config ports)
        ≡ in_run r (x >>= apply_in config ports (values r.actual) (deletes_of r))
  unfolding apply_run
  apply_run-in_run r (ok t) =
      in_run-twice r t (apply_in config ports (values r.actual) (deletes_of r) t)
  apply_run-in_run r (err e t) = refl

  pub deliver_pending-sends :
      (p : Pending) (t : Tracker W B)
      → t.pending ≡ some p
      → config.change_sink ≡ some sink
      → deliver_pending config ports t ≡ send_generation config ports (some sink) p t
  unfolding deliver_pending
  deliver_pending-sends p t h s = ground arith

  deliver_run-sends :
      (r : Run W B)
      → config.change_sink ≡ some sink
      → deliver_run config ports r
        ≡ in_run r (
            send_generation config ports
              (some sink)
              (pending_of r)
              (record r.tracker { pending = some (pending_of r) }))
  unfolding deliver_run
  deliver_run-sends r s = ground (
    arith,
    deliver_pending-sends (pending_of r) (record r.tracker { pending = some (pending_of r) }) refl
        s,
  )

  finish_run-world :
      (r : Run W B)
      → config.change_sink ≡ some sink
      → (deliver_run config ports r >>= apply_run config ports)
        ≡ in_run r (
            in_world
              (record r.tracker { pending = some (pending_of r) })
              (commit_world config ports sink (pending_of r) r.tracker.world))
  finish_run-world r s =
      ap (λ x. x >>= apply_run config ports) (deliver_run-sends r s)
      ∙ apply_run-in_run r (
          send_generation config ports (some sink) (pending_of r)
            (record r.tracker { pending = some (pending_of r) }))
      ∙ ap (in_run r) (
          commit-world config ports sink (pending_of r)
            (record r.tracker { pending = some (pending_of r) }))

  completed :
      (r : Run W B) (t : Tracker W B) (w : W)
      → let u = (complete config ports (record r { tracker = record t { world = w } })).tracker in
        (u.world ≡ w) × (u.pending ≡ none) × (u.generation ≡ r.report.generation)
  unfolding complete
  completed r t w =
      let (a, b, c, d) = send_events-keeps config.event_buffer r.report.events _ in (a, b, c)

  pub finish_run-IsCommitted :
      (r : Run W B)
      → config.change_sink ≡ some sink
      → IsCommitted
          (pending_of r)
          r.tracker.generation
          (commit_world config ports sink (pending_of r) r.tracker.world)
          (reply_of config ports (deliver_run config ports r >>= apply_run config ports))
  finish_run-IsCommitted r s =
      rw (finish_run-world r s)
        (elim (Result-cases (commit_world config ports sink (pending_of r) r.tracker.world)) [
          | inl (w, e) ↦
              let (a, b, c) = completed r (record r.tracker { pending = some (pending_of r) }) w in
              rw (e) (refl, a, b, c)
          | inr (f, w, e) ↦ rw (e) (refl, refl, refl, refl)
        ])
