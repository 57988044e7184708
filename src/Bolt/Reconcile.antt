-- ===== src/Bolt/Reconcile.antt =====
-- `reconcileBoltLocked` of reconcile_bolt.go: a generation by way of an index. Contexts and times
-- are left out, and so are the names and the removal of the index's file. The index is dropped when
-- the function returns, so that what a failed transaction leaves in it is not observed.
use fsrecon.Prelude.{
  ℕ, ◌+◌, ◌-◌, ◌*◌, ◌%◌, ◌^◌, Bool, false, not, ◌&&◌, is_some, Str, Map, Option, none, some, List,
  [], ◌∷◌, str_eq, ltb, Result, ok, err, ◌>>=◌, if◌then◌else◌,
}
use fsrecon.State.{FileState, file_type_eq, file_type_regular}
use fsrecon.Event.{ReconcileReport}
use fsrecon.Delivery.{Sink, Batcher, DeliveryError, new_change_batcher, add, finish, incr64}
use fsrecon.Scanner.{Entry, state_from_entry}
use fsrecon.Config.{
  Config, Ports, ExpectedEntry, allow_hardlinks, report_hardlinks, reject_hardlinks,
}
use fsrecon.Expected.{
  ExpectedError, walk_failed, expected_path, passes_filter, implied_type, root_can_be_expected,
}
use fsrecon.Watchtree.{Backend}
use fsrecon.Tracker.{mark_dirty, set_consistent_state}
use fsrecon.Reconcile.{
  Tracker, ScanFault, scan_error, hardlink_rejected, Failure, send_events, on_life,
}
use fsrecon.Reconcile.Gather.{Run, invalid_event, watch_entry, fault_is, sync_watches}
use fsrecon.Reconcile.Commit.{count_report}
use fsrecon.Bolt.{BoltError, engine_failed, Engine}
use fsrecon.Bolt.Json.{Json}
use fsrecon.Bolt.Codec.{encode_file_state}
use fsrecon.Bolt.Events.{decode_staged_event}
use fsrecon.Bolt.Snapshot.{BoltStore, walk_scope, replace_snapshot}
use fsrecon.Bolt.Work.{Index, Work, lift_step, index_identity, stage_report_event}
use fsrecon.Bolt.Expect.{encode_expected, diff_index}

-- The steps that make the index, and the one that failed.
pub data IndexStep : Type 0 where
  create_index close_index open_index initialize_index : IndexStep

-- What ends a transaction on the index.
pub data StageError (E F : Type 0) : Type 0 where
  index_failed : BoltError F → StageError E F
  scan_ended : ScanFault E → StageError E F
  expected_ended : ExpectedError E → StageError E F

pub data BoltFailure (E F : Type 0) : Type 0 where
  index_unavailable : IndexStep → F → BoltFailure E F
  stage_previous_failed stage_actual_failed stage_expected_failed : StageError E F → BoltFailure E F
  sync_failed : Failure E → BoltFailure E F
  inspect_root_failed : E → BoltFailure E F
  diff_failed : StageError E F → BoltFailure E F
  decode_event_failed : BoltFailure E F
  delivery_failed : DeliveryError E → BoltFailure E F
  replace_failed : BoltError F → BoltFailure E F

-- The index's file: which step of making it fails, if any, and whether a transaction commits.
pub record IndexPorts (B C F : Type 0) : Type 0 where
  pub make_index : Option (IndexStep × F)
  pub commit : Index B C → Option F

-- The local variables: those that the other path has too, and the index.
pub record BoltRun (W K B C : Type 0) : Type 0 where
  pub run : Run W K
  pub index : Index B C

abbrev pub map_error {ℓ} : {A : Type ℓ} {E G : Type 0} → (E → G) → Result E A → Result G A
map_error f (ok a) = ok a
map_error f (err e a) = err (f e) a

module _ {W K B C : Type 0} where
  abbrev pub set_run : BoltRun W K B C → Run W K → BoltRun W K B C
  set_run r run = record r { run = run }

  abbrev pub work_of : BoltRun W K B C → Work B C
  work_of r = record { report = r.run.report; index = r.index }

  abbrev pub set_work : BoltRun W K B C → Work B C → BoltRun W K B C
  set_work r w = record { run = record r.run { report = w.report }; index = w.index }

  abbrev pub set_previous : BoltRun W K B C → B → BoltRun W K B C
  set_previous r b = record r { index = record r.index { previous = b } }

  abbrev pub set_previous_id : BoltRun W K B C → C → BoltRun W K B C
  set_previous_id r c = record r { index = record r.index { previous_id = c } }

  abbrev pub set_actual : BoltRun W K B C → B → BoltRun W K B C
  set_actual r b = record r { index = record r.index { actual = b } }

  abbrev pub set_actual_id : BoltRun W K B C → C → BoltRun W K B C
  set_actual_id r c = record r { index = record r.index { actual_id = c } }

  abbrev pub set_expected : BoltRun W K B C → B → BoltRun W K B C
  set_expected r b = record r { index = record r.index { expected = b } }

  abbrev pub count_scanned : BoltRun W K B C → BoltRun W K B C
  count_scanned r = record r {
    run = record r.run { report = record r.run.report { scanned = incr64 r.run.report.scanned } };
  }

-- A step on the part that another result is about.
abbrev pub embed {ℓ κ} :
    {A : Type ℓ} {S : Type κ} {E G : Type 0} → (E → G) → (A → S) → Result E A → Result G S
embed f g (ok a) = ok (g a)
embed f g (err e a) = err (f e) (g a)

module _ {W K E B C F : Type 0} (config : Config W E) (ports : Ports W E) (backend : Backend K E)
    (states : Engine B Json F) (paths : Engine C Str F) (index_ports : IndexPorts B C F) where
  -- The transaction's end.
  unfoldable pub committed :
      (StageError E F → BoltFailure E F)
      → Result (StageError E F) (BoltRun W K B C)
      → Result (BoltFailure E F) (BoltRun W K B C)
  committed failure (err e r) = err (failure e) r
  committed failure (ok r) = elim (index_ports.commit r.index) [
    | some e ↦ err (failure (index_failed (engine_failed e))) r
    | none ↦ ok r
  ]

  unfoldable pub put_previous : FileState → BoltRun W K B C → Result (BoltError F) (BoltRun W K B C)
  unfolding encode_file_state index_identity
  put_previous state r =
      lift_step (set_previous r) (states.put state.path (encode_file_state state) r.index.previous)
      >>= λ r'.
          lift_step (set_previous_id r')
            (index_identity paths state.id.value state.path r'.index.previous_id)

  unfoldable pub stage_previous :
      BoltStore B → BoltRun W K B C → Result (BoltFailure E F) (BoltRun W K B C)
  unfolding committed put_previous walk_scope
  stage_previous store r =
      committed stage_previous_failed
        (map_error index_failed (walk_scope states store (λ _. false) config.root put_previous r))

  unfoldable pub watch_directory :
      FileState → BoltRun W K B C → Result (StageError E F) (BoltRun W K B C)
  unfolding watch_entry
  watch_directory state r =
      embed scan_ended (set_run r) (watch_entry config ports backend state r.run)

  -- The policy for a regular file that has several links.
  unfoldable pub stage_links :
      Entry → FileState → BoltRun W K B C → Result (StageError E F) (BoltRun W K B C)
  unfolding stage_report_event
  stage_links entry state r =
      if file_type_eq state.file_type file_type_regular && ltb 1 entry.links
      then (elim config.hardlink_policy [
        | reject_hardlinks ↦ err (scan_ended (hardlink_rejected state.path)) r
        | report_hardlinks ↦
            embed index_failed (set_work r) (
              stage_report_event states config.report_event_limit (invalid_event state) (work_of r))
        | allow_hardlinks ↦ ok r
      ])
      else ok r

  unfoldable pub put_actual :
      FileState → BoltRun W K B C → Result (StageError E F) (BoltRun W K B C)
  unfolding encode_file_state index_identity
  put_actual state r = map_error index_failed (
      lift_step (set_actual r) (states.put state.path (encode_file_state state) r.index.actual)
      >>= λ r'.
          lift_step (λ c. count_scanned (set_actual_id r' c))
            (index_identity paths state.id.value state.path r'.index.actual_id))

  -- The callback of the scan.
  unfoldable pub stage_entry : Entry → BoltRun W K B C → Result (StageError E F) (BoltRun W K B C)
  unfolding watch_directory stage_links put_actual
  stage_entry entry r =
      watch_directory (state_from_entry entry) r
      >>= stage_links entry (state_from_entry entry)
      >>= put_actual (state_from_entry entry)

  unfoldable pub stage_entries :
      List Entry → Option E → BoltRun W K B C → Result (StageError E F) (BoltRun W K B C)
  unfolding stage_entry
  stage_entries [] none r = ok r
  stage_entries [] (some e) r = err (scan_ended (scan_error e)) r
  stage_entries (entry ∷ entries) fault r = stage_entry entry r >>= stage_entries entries fault

  -- A root that does not exist has no entries.
  abbrev pub unless_missing :
      Result (StageError E F) (BoltRun W K B C) → Result (StageError E F) (BoltRun W K B C)
  unless_missing (ok r) = ok r
  unless_missing (err (scan_ended f) r) =
      if fault_is config ports backend (λ e. ports.is_not_exist e) f
      then ok r
      else err (scan_ended f) r
  unless_missing (err (index_failed e) r) = err (index_failed e) r
  unless_missing (err (expected_ended e) r) = err (expected_ended e) r

  unfoldable pub stage_actual : BoltRun W K B C → Result (BoltFailure E F) (BoltRun W K B C)
  unfolding committed stage_entries
  stage_actual r =
      let s = ports.scan config.root r.run.tracker.world in
      committed stage_actual_failed (unless_missing (stage_entries s.items s.fault r))

  unfoldable pub sync_tree : BoltRun W K B C → Result (BoltFailure E F) (BoltRun W K B C)
  unfolding sync_watches
  sync_tree r =
      embed sync_failed (set_run r) (sync_watches config ports backend (config.root ∷ []) r.run)

  abbrev pub put_expected :
      ExpectedEntry → Str → BoltRun W K B C → Result (StageError E F) (BoltRun W K B C)
  put_expected entry path r = map_error index_failed (
      lift_step (set_expected r) (
        states.put path
          (encode_expected
            (record entry { path = path; file_type = implied_type config entry.file_type }))
          r.index.expected))

  -- The callback of `WalkExpected`.
  unfoldable pub stage_expected_entry :
      Bool → ExpectedEntry → BoltRun W K B C → Result (StageError E F) (BoltRun W K B C)
  unfolding encode_expected passes_filter
  stage_expected_entry root_allowed entry r = elim (expected_path {E = E} config.root entry.path) [
    | err e p ↦ err (expected_ended e) r
    | ok path ↦
        if str_eq path config.root && not (is_some entry.file_type) && not root_allowed
        then ok r
        else if not (passes_filter config path entry)
        then ok r
        else put_expected entry path r
  ]

  unfoldable pub stage_expected_entries :
      Bool
      → List ExpectedEntry
      → Option E
      → BoltRun W K B C
      → Result (StageError E F) (BoltRun W K B C)
  unfolding stage_expected_entry
  stage_expected_entries root_allowed [] none r = ok r
  stage_expected_entries root_allowed [] (some e) r = err (expected_ended (walk_failed e)) r
  stage_expected_entries root_allowed (entry ∷ entries) fault r =
      stage_expected_entry root_allowed entry r
      >>= stage_expected_entries root_allowed entries fault

  unfoldable pub stage_expected : BoltRun W K B C → Result (BoltFailure E F) (BoltRun W K B C)
  unfolding committed stage_expected_entries root_can_be_expected
  stage_expected r = elim config.expected [
    | none ↦ ok r
    | some provider ↦ elim (root_can_be_expected config ports r.run.tracker.world) [
      | err e b ↦ err (inspect_root_failed e) r
      | ok root_allowed ↦
          let s = provider.walk_expected_entries config.root r.run.tracker.world in
          committed stage_expected_failed (stage_expected_entries root_allowed s.items s.fault r)
    ]
  ]

  unfoldable pub diff_run : BoltRun W K B C → Result (BoltFailure E F) (BoltRun W K B C)
  unfolding committed diff_index
  diff_run r = committed diff_failed (
      embed index_failed (set_work r) (
        diff_index states paths config.report_event_limit (is_some config.expected)
          config.expected_scope (work_of r)))

  -- Without expected entries, a subtraction on `uint64`.
  abbrev pub healthy_count : ReconcileReport → ℕ
  healthy_count report =
      if is_some config.expected
      then report.healthy
      else (report.scanned + 3 * 2 ^ 64 - report.created - report.modified - report.replaced)
        % 2 ^ 64

  abbrev pub count_healthy : BoltRun W K B C → Result (BoltFailure E F) (BoltRun W K B C)
  count_healthy r = ok (record r {
    run = record r.run { report = record r.run.report { healthy = healthy_count r.run.report } };
  })

  -- The loop over the staged events, and the last batch.
  unfoldable pub deliver_changes :
      Option (Sink E W) → Map Json → Batcher W → Result (BoltFailure E F) (Batcher W)
  unfolding decode_staged_event add finish
  deliver_changes sink [] b = map_error delivery_failed (finish sink b)
  deliver_changes sink ((key, value) ∷ rest) b = elim (decode_staged_event value) [
    | none ↦ err decode_event_failed b
    | some event ↦ map_error delivery_failed (add sink event b) >>= deliver_changes sink rest
  ]

  abbrev pub set_world : BoltRun W K B C → Batcher W → BoltRun W K B C
  set_world r b = record r {
    run = record r.run { tracker = record r.run.tracker { world = b.world } };
  }

  unfoldable pub deliver_index : BoltRun W K B C → Result (BoltFailure E F) (BoltRun W K B C)
  unfolding deliver_changes
  deliver_index r =
      embed (λ e. e) (set_world r)
        (deliver_changes config.change_sink (states.pairs r.index.changes) (
          new_change_batcher r.run.tracker.session_id r.run.report.generation
            config.change_batch_size r.run.tracker.world))

  -- All of it up to the snapshot, in the order of the source.
  unfoldable pub prepare :
      BoltStore B → BoltRun W K B C → Result (BoltFailure E F) (BoltRun W K B C)
  unfolding stage_previous stage_actual sync_tree stage_expected diff_run deliver_index
  prepare store r =
      stage_previous store r
      >>= stage_actual
      >>= sync_tree
      >>= stage_expected
      >>= diff_run
      >>= count_healthy
      >>= deliver_index

-- What the function returns, beside the tracker and the store that it leaves.
pub record BoltReply (W K B E F : Type 0) : Type 0 where
  pub report : ReconcileReport
  pub error : Option (BoltFailure E F)
  pub tracker : Tracker W K
  pub store : BoltStore B

module _ {W K E B C F : Type 0} (config : Config W E) (ports : Ports W E) (backend : Backend K E)
    (states : Engine B Json F) (paths : Engine C Str F) (index_ports : IndexPorts B C F) where
  -- `fail`
  abbrev pub failed : BoltStore B → BoltFailure E F → Run W K → BoltReply W K B E F
  failed store e r = record {
    report = r.report;
    error = some e;
    tracker = on_life mark_dirty r.tracker;
    store = store;
  }

  abbrev pub completed : BoltStore B → Run W K → BoltReply W K B E F
  completed store r = record {
    report = r.report;
    error = none;
    tracker = send_events config.event_buffer r.report.events (record r.tracker {
      stats = count_report r.report r.tracker.stats;
      generation = r.report.generation;
      life = set_consistent_state r.tracker.life;
    });
    store = store;
  }

  abbrev pub replaced : BoltRun W K B C → Result (BoltError F) (BoltStore B) → BoltReply W K B E F
  replaced r (ok store) = completed store r.run
  replaced r (err e store) = failed store (replace_failed e) r.run

  abbrev pub reply_of :
      BoltStore B → Result (BoltFailure E F) (BoltRun W K B C) → BoltReply W K B E F
  reply_of store (err e r) = failed store e r.run
  reply_of store (ok r) = replaced r (replace_snapshot states (λ _. false) r.index.actual store)

  abbrev pub empty_index : Index B C
  empty_index = record {
    previous = states.empty;
    actual = states.empty;
    expected = states.empty;
    changes = states.empty;
    sequence = 0;
    previous_id = paths.empty;
    actual_id = paths.empty;
    matched = paths.empty;
  }

  -- From the step of making the index that failed, if any.
  unfoldable pub with_index : BoltStore B → Run W K → Option (IndexStep × F) → BoltReply W K B E F
  unfolding prepare replace_snapshot
  with_index store r (some (step, e)) = failed store (index_unavailable step e) r
  with_index store r none = reply_of store (
      prepare config ports backend states paths index_ports store
        (record { run = r; index = empty_index }))

  -- `reconcileBoltLocked`, from the variables as `reconcileScopes` hands them over.
  unfoldable pub reconcile_bolt_locked : BoltStore B → Run W K → BoltReply W K B E F
  unfolding with_index
  reconcile_bolt_locked store r = with_index store r index_ports.make_index
