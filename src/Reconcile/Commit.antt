-- ===== src/Reconcile/Commit.antt =====
-- `reconcileScopes` of reconcile.go after the diff: delivery, the snapshot, and the report; the
-- resumption of a pending generation, of integrity.go's too; and the whole of `Reconcile`.
use fsrecon.Prelude.{
  ℕ, ◌+◌, ◌-◌, ◌*◌, ◌%◌, ◌^◌, Bool, true, not, ◌&&◌, Str, Map, Option, none, some, List, [], ◌∷◌,
  get, has, keep, keys, length, ◌==◌, if◌then◌else◌, Result, ok, err, ◌>>=◌,
}
use fsrecon.State.{FileState}
use fsrecon.Event.{ReconcileReport, zero_report}
use fsrecon.Delivery.{Sink, deliver, new_change_batcher, incr64}
use fsrecon.Config.{Config, Ports}
use fsrecon.Watchtree.{Backend}
use fsrecon.Scopes.{collapse_scopes}
use fsrecon.Tracker.{set_state, set_consistent_state, mark_dirty, state_reconciling}
use fsrecon.Convert.{internal_type_from_public}
use fsrecon.Diff
use fsrecon.Reconcile.{
  pending_reconcile, pending_integrity, IntegrityReport, Pending, Stats, Tracker, Failure,
  err_closed, delivery_failed, apply_failed, delete_failed, put_failed, no_pending_integrity, Reply,
  send_events, on_life,
}
use fsrecon.Reconcile.Gather.{Run, new_run, gather}

-- `x += n` on a `uint64`
abbrev pub add64 : ℕ → ℕ → ℕ
add64 a b = (a + b) % 2 ^ 64

abbrev pub values : Map FileState → List FileState
values [] = []
values ((path, s) ∷ m) = s ∷ values m

-- The paths that are gone.
abbrev pub deletes_of : {W B : Type 0} → Run W B → List Str
deletes_of r = keep (λ path. not (has r.actual path)) (keys r.previous)

-- The generation as it is kept for a retry.
abbrev pub pending_of : {W B : Type 0} → Run W B → Pending
pending_of r = record {
  kind = pending_reconcile;
  session_id = r.tracker.session_id;
  generation = r.report.generation;
  report = r.report;
  events = r.all_events;
  puts = values r.actual;
  deletes = deletes_of r;
  integrity = none;
}

-- Does an entry meet its expectation?
abbrev pub meets : Diff.Expected → FileState → Bool
meets e s =
    (elim e.file_type [
      | none ↦ true
      | some t ↦ Diff.type_eq (internal_type_from_public s.file_type) t
    ])
    && (elim e.size [ none ↦ true | some n ↦ s.size == n ])

unfoldable pub count_healthy : Map Diff.Expected → Map FileState → ℕ → ℕ
count_healthy [] actual n = n
count_healthy ((path, e) ∷ expected) actual n =
    count_healthy expected actual
      (elim (get actual path) [ none ↦ n | some s ↦ if meets e s then incr64 n else n ])

-- Without expected entries, a subtraction on `uint64`.
unfoldable pub healthy_of : {W B : Type 0} → Run W B → ℕ
unfolding count_healthy
healthy_of r = elim r.expected [
  | some expected ↦ count_healthy expected r.actual r.report.healthy
  | none ↦
      (length r.actual + 3 * 2 ^ 64 - r.report.created - r.report.modified - r.report.replaced)
      % 2 ^ 64
]

abbrev pub count_report : ReconcileReport → Stats → Stats
count_report report s = record s {
  reconciliations = incr64 s.reconciliations;
  files_scanned = add64 s.files_scanned report.scanned;
  missing_detected = add64 s.missing_detected report.missing;
  orphans_detected = add64 s.orphans_detected report.orphan;
  report_events_truncated = add64 s.report_events_truncated report.events_truncated;
}

abbrev pub count_integrity : IntegrityReport → Stats → Stats
count_integrity report s = record s {
  integrity_scanned = add64 s.integrity_scanned report.scanned;
  corrupt_detected = add64 s.corrupt_detected report.corrupt;
  report_events_truncated = add64 s.report_events_truncated report.events_truncated;
}

module _ {W E : Type 0} (ports : Ports W E) where
  unfoldable pub delete_each : List Str → W → Result (Failure E) W
  delete_each [] w = ok w
  delete_each (path ∷ paths) w = elim (ports.delete_snapshot path w) [
    | err e w' ↦ err (delete_failed path e) w'
    | ok w' ↦ delete_each paths w'
  ]

  unfoldable pub put_each : List FileState → W → Result (Failure E) W
  put_each [] w = ok w
  put_each (s ∷ states) w = elim (ports.put_snapshot s w) [
    | err e w' ↦ err (put_failed s.path e) w'
    | ok w' ↦ put_each states w'
  ]

  -- The snapshot's changes: in one batch where the store can, else one by one.
  unfoldable pub apply_snapshot : List FileState → List Str → W → Result (Failure E) W
  unfolding delete_each put_each
  apply_snapshot puts deletes w = elim ports.apply_batch [
    | none ↦ delete_each deletes w >>= put_each puts
    | some apply ↦ elim (apply puts deletes w) [
      | ok w' ↦ ok w'
      | err e w' ↦ err (apply_failed e) w'
    ]
  ]

-- A step of the tracker within a run.
abbrev pub in_run :
    {W B E : Type 0} → Run W B → Result (Failure E) (Tracker W B) → Result (Failure E) (Run W B)
in_run r (ok t) = ok (record r { tracker = t })
in_run r (err e t) = err e (record r { tracker = t })

module _ {W B E : Type 0} (config : Config W E) (ports : Ports W E) where
  -- A generation's events through a new batcher, on the tracker's world.
  unfoldable pub send_generation :
      Option (Sink E W) → Pending → Tracker W B → Result (Failure E) (Tracker W B)
  send_generation sink p t =
      elim (deliver sink p.events
        (new_change_batcher p.session_id p.generation config.change_batch_size t.world)) [
          | ok b ↦ ok (record t { world = b.world })
          | err e b ↦ err (delivery_failed e) (record t { world = b.world })
        ]

  unfoldable pub deliver_pending : Tracker W B → Result (Failure E) (Tracker W B)
  unfolding send_generation
  deliver_pending t = elim t.pending [
    | none ↦ ok t
    | some p ↦ elim config.change_sink [ none ↦ ok t | some sink ↦ send_generation (some sink) p t ]
  ]

  -- The same on the tracker's world.
  unfoldable pub apply_in :
      List FileState → List Str → Tracker W B → Result (Failure E) (Tracker W B)
  unfolding apply_snapshot
  apply_in puts deletes t = elim (apply_snapshot ports puts deletes t.world) [
    | ok w ↦ ok (record t { world = w })
    | err e w ↦ err e (record t { world = w })
  ]

  -- With a sink the generation becomes the pending one before it is delivered.
  unfoldable pub deliver_run : Run W B → Result (Failure E) (Run W B)
  unfolding deliver_pending
  deliver_run r = elim config.change_sink [
    | none ↦ ok r
    | some sink ↦ in_run r (deliver_pending (record r.tracker { pending = some (pending_of r) }))
  ]

  unfoldable pub apply_run : Run W B → Result (Failure E) (Run W B)
  unfolding apply_in
  apply_run r = in_run r (apply_in (values r.actual) (deletes_of r) r.tracker)

  unfoldable pub complete : Run W B → Run W B
  unfolding healthy_of
  complete r =
      let report = record r.report { healthy = healthy_of r } in
      record r {
        report = report;
        tracker = send_events config.event_buffer report.events (record r.tracker {
          pending = none;
          stats = count_report report r.tracker.stats;
          generation = report.generation;
          life = set_consistent_state r.tracker.life;
        });
      }

  abbrev pub reply_of : Result (Failure E) (Run W B) → Reply W B E
  reply_of (ok r) = record {
    report = (complete r).report;
    error = none;
    tracker = (complete r).tracker;
  }
  reply_of (err e r) = record {
    report = r.report;
    error = some e;
    tracker = on_life mark_dirty r.tracker;
  }

  abbrev pub resumed : Pending → Result (Failure E) (Tracker W B) → Reply W B E
  resumed p (err e t) = record { report = p.report; error = some e; tracker = t }
  resumed p (ok t) = record {
    report = p.report;
    error = none;
    tracker = record t {
      pending = none;
      generation = p.generation;
      stats = count_report p.report t.stats;
      life = set_consistent_state t.life;
    };
  }

  unfoldable pub resume_pending : Pending → Tracker W B → Reply W B E
  unfolding deliver_pending apply_in
  resume_pending p t = resumed p (deliver_pending t >>= apply_in p.puts p.deletes)

  unfoldable pub resume_pending_integrity : Pending → Tracker W B → Result (Failure E) (Tracker W B)
  unfolding send_generation
  resume_pending_integrity p t = elim p.integrity [
    | none ↦ err no_pending_integrity t
    | some report ↦ send_generation config.change_sink p t >>= λ t'. ok (
        send_events config.event_buffer report.events (record t' {
          pending = none;
          generation = p.generation;
          stats = count_integrity report t'.stats;
        }))
  ]

module _ {W B E : Type 0} (config : Config W E) (ports : Ports W E) (backend : Backend B E) where
  -- A new generation.
  unfoldable pub begin_generation : List Str → Tracker W B → Reply W B E
  unfolding deliver_run apply_run complete gather
  begin_generation requested t =
      let r = new_run config.root (incr64 t.generation) (on_life (set_state state_reconciling) t) in
      elim (collapse_scopes config.root requested) [
        | [] ↦ record {
          report = r.report;
          error = none;
          tracker = record r.tracker {
            generation = r.report.generation;
            life = set_consistent_state r.tracker.life;
          };
        }
        | scope ∷ scopes ↦ reply_of config ports (
            gather config ports backend (scope ∷ scopes) r
            >>= deliver_run config ports
            >>= apply_run config ports)
      ]

  unfoldable pub resume_or_begin : Pending → List Str → Tracker W B → Reply W B E
  unfolding begin_generation resume_pending resume_pending_integrity
  resume_or_begin p requested t = elim p.kind [
    | pending_reconcile ↦ resume_pending config ports p t
    | pending_integrity ↦ elim (resume_pending_integrity config ports p t) [
      | err e t' ↦ record { report = zero_report; error = some e; tracker = t' }
      | ok t' ↦ begin_generation requested t'
    ]
  ]

  -- `reconcileScopes`
  unfoldable pub reconcile_scopes : List Str → Tracker W B → Reply W B E
  unfolding resume_or_begin begin_generation
  reconcile_scopes requested t =
      if t.life.closed
      then record { report = zero_report; error = some err_closed; tracker = t }
      else (elim t.pending [
        | none ↦ begin_generation requested t
        | some p ↦ resume_or_begin p requested t
      ])

  -- `Reconcile`
  unfoldable pub reconcile : Tracker W B → Reply W B E
  unfolding reconcile_scopes
  reconcile t = reconcile_scopes (config.root ∷ []) t
