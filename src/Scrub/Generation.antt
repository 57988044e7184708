-- ===== src/Scrub/Generation.antt =====
-- `Scrub` of integrity.go around its scan: the delivery of the staged events, the resumption of a
-- pending generation, and the whole.
use fsrecon.Prelude.{Option, none, some, [], if◌then◌else◌, Result, ok, err, final}
use fsrecon.State.{FileState}
use fsrecon.Event.{Event, zero_report}
use fsrecon.Scanner.{Stream}
use fsrecon.Delivery.{Sink, DeliveryError, Batcher, new_change_batcher, add_all, finish, incr64}
use fsrecon.Config.{Config, Ports}
use fsrecon.Reconcile.{
  pending_reconcile, pending_integrity, IntegrityReport, Pending, Tracker, Failure, Reply,
  send_events,
}
use fsrecon.Reconcile.Commit.{count_integrity, resume_pending, resume_pending_integrity}
use fsrecon.Scrub.{
  Checked, Stage, ScrubError, no_integrity, tracker_closed, resume_failed, stage_failed,
  delivery_failed, zero_integrity, Scan, scan_all,
}

-- What a scrub returns, beside the tracker it leaves.
pub record ScrubReply (W B E : Type 0) : Type 0 where
  pub report : IntegrityReport
  pub error : Option (ScrubError E)
  pub tracker : Tracker W B

-- The events of the scan as the pending generation.
abbrev pub keep_pending : {W B : Type 0} → Scan W → Tracker W B → Tracker W B
keep_pending s t = record t {
  pending = some (record {
    kind = pending_integrity;
    session_id = t.session_id;
    generation = s.report.generation;
    report = zero_report;
    events = s.all_events;
    puts = [];
    deletes = [];
    integrity = some s.report;
  });
}

abbrev pub failed : {W B E : Type 0} → ScrubError E → Scan W → Tracker W B → ScrubReply W B E
failed e s t = record { report = s.report; error = some e; tracker = record t { world = s.world } }

-- An error of the sink leaves the generation pending.
abbrev pub refused :
    {W B E : Type 0} → DeliveryError E → W → Scan W → Tracker W B → ScrubReply W B E
refused e w s t = failed (delivery_failed e) (record s { world = w }) (keep_pending s t)

module _ {W B E : Type 0} (config : Config W E) (stage : Stage W E) where
  unfoldable pub conclude : Scan W → Tracker W B → ScrubReply W B E
  conclude s t = record {
    report = s.report;
    error = none;
    tracker = send_events config.event_buffer s.report.events (record t {
      world = s.world;
      generation = s.report.generation;
      stats = count_integrity s.report t.stats;
    });
  }

  -- After the last batch.
  unfoldable pub after_finish :
      Scan W → Tracker W B → Result (DeliveryError E) (Batcher W) → ScrubReply W B E
  unfolding conclude
  after_finish s t (err e b) = refused e b.world s t
  after_finish s t (ok b) = conclude (record s { world = b.world }) t

  -- After the input was closed the last batch goes out.
  unfoldable pub after_close :
      Sink E W → Batcher W → Scan W → Tracker W B → Result E W → ScrubReply W B E
  unfolding after_finish
  after_close sink b s t (err e w) = failed (stage_failed e) (record s { world = w }) t
  after_close sink b s t (ok w) = after_finish s t (finish (some sink) (record b { world = w }))

  -- After the events that were read, a fault of the reading ends the delivery.
  unfoldable pub after_add :
      Sink E W
      → Option E
      → Scan W
      → Tracker W B
      → Result (DeliveryError E) (Batcher W)
      → ScrubReply W B E
  unfolding after_close
  after_add sink fault s t (err e b) = refused e (final (stage.close_input b.world)) s t
  after_add sink (some e) s t (ok b) =
      failed (stage_failed e) (record s { world = final (stage.close_input b.world) }) t
  after_add sink none s t (ok b) = after_close sink b s t (stage.close_input b.world)

  -- What is read back goes through a batcher.
  unfoldable pub send_staged : Sink E W → Stream E Event → Scan W → Tracker W B → ScrubReply W B E
  unfolding after_add
  send_staged sink input s t =
      let b =
        new_change_batcher t.session_id s.report.generation config.change_batch_size s.world in
      after_add sink input.fault s t (add_all (some sink) input.items b)

  unfoldable pub deliver_scan : Scan W → Tracker W B → ScrubReply W B E
  unfolding send_staged conclude
  deliver_scan s t = elim config.change_sink [
    | none ↦ conclude s t
    | some sink ↦ send_staged sink (stage.decode_all s.world) s t
  ]

abbrev pub integrity_or_zero : Option IntegrityReport → IntegrityReport
integrity_or_zero none = zero_integrity
integrity_or_zero (some r) = r

module _ {W B E : Type 0} (config : Config W E) (ports : Ports W E) (stage : Stage W E) where
  abbrev pub scrub_reply : Tracker W B → Result (ScrubError E) (Scan W) → ScrubReply W B E
  scrub_reply t (err e s) = failed e s t
  scrub_reply t (ok s) = deliver_scan config stage s t

  unfoldable pub begin_scrub : (FileState → W → Checked E) → Tracker W B → ScrubReply W B E
  unfolding scan_all deliver_scan
  begin_scrub check t =
      scrub_reply t (scan_all config ports stage check (incr64 t.generation) t.world)

  abbrev pub resumed_reconcile : (FileState → W → Checked E) → Reply W B E → ScrubReply W B E
  resumed_reconcile check r = elim r.error [
    | some e ↦ record {
      report = zero_integrity;
      error = some (resume_failed e);
      tracker = r.tracker;
    }
    | none ↦ begin_scrub check r.tracker
  ]

  abbrev pub resumed_integrity : Pending → Result (Failure E) (Tracker W B) → ScrubReply W B E
  resumed_integrity p (ok t) = record {
    report = integrity_or_zero p.integrity;
    error = none;
    tracker = t;
  }
  resumed_integrity p (err e t) = record {
    report = integrity_or_zero p.integrity;
    error = some (resume_failed e);
    tracker = t;
  }

  unfoldable pub resume_or_scrub :
      (FileState → W → Checked E) → Pending → Tracker W B → ScrubReply W B E
  resume_or_scrub check p t = elim p.kind [
    | pending_reconcile ↦ resumed_reconcile check (resume_pending config ports p t)
    | pending_integrity ↦ resumed_integrity p (resume_pending_integrity config ports p t)
  ]

  -- `Scrub`; a checker may be missing.
  unfoldable pub scrub : Option (FileState → W → Checked E) → Tracker W B → ScrubReply W B E
  unfolding resume_or_scrub begin_scrub
  scrub none t = record { report = zero_integrity; error = some no_integrity; tracker = t }
  scrub (some check) t =
      if t.life.closed
      then record { report = zero_integrity; error = some tracker_closed; tracker = t }
      else (elim t.pending [ none ↦ begin_scrub check t | some p ↦ resume_or_scrub check p t ])
