-- ===== src/Bolt/Replaced.antt =====
-- The snapshot after `reconcileBoltLocked` of reconcile_bolt.go.
use fsrecon.Prelude.{
  ◌≡◌, refl, sym, ap, ◌∙◌, subst, ◌⊎◌, inl, inr, Bool, false, not, ◌&&◌, Str, Map, Option, none,
  some, is_some, List, [], ◌∷◌, All, str_eq, get, Result, ok, err, OnOk, OnOk-bind, if◌then◌else◌,
}
use fsrecon.State.{FileState}
use fsrecon.Config.{Config, Ports, ExpectedEntry}
use fsrecon.Watchtree.{Backend}
use fsrecon.Tracker.{mark_dirty}
use fsrecon.Reconcile.{Tracker, on_life}
use fsrecon.Reconcile.Gather.{Run, put_states}
use fsrecon.Bolt.{bolt_store_closed, engine_failed, Engine, IsLawful}
use fsrecon.Expected.{expected_path, passes_filter, root_can_be_expected}
use fsrecon.Bolt.Json.{Json}
use fsrecon.Bolt.Codec.{encode_file_state}
use fsrecon.Bolt.Snapshot.{BoltStore, get_state, read_value, walk_scope}
use fsrecon.Bolt.Contract.{IsWritable, replace_snapshot-get}
use fsrecon.Bolt.Work.{lift_step, index_identity}
use fsrecon.Bolt.Frame.{OnOk-lift_step, OnOk-if, OnOk-option, Keeps, diff_index-Keeps}
use fsrecon.Bolt.Reconcile.{
  StageError, index_failed, expected_ended, BoltFailure, stage_previous_failed,
  stage_expected_failed, diff_failed, inspect_root_failed, IndexPorts, BoltRun, BoltReply,
  map_error, committed, stage_entries, unless_missing, stage_actual, stage_previous, put_previous,
  sync_tree, stage_expected, diff_run, set_world, sync_failed, stage_actual_failed, replaced,
  replace_failed, index_unavailable, IndexStep, with_index, empty_index, deliver_index, prepare,
  reconcile_bolt_locked, reply_of, set_run, set_work, set_previous, set_previous_id, set_expected,
  put_expected, stage_expected_entry, stage_expected_entries, work_of,
}
use fsrecon.Bolt.Steps.{
  OnOk-embed, OnOk-map_error, OnOk-embed_all, OnOk-none, OnOk-path, walk_scope-OnOk,
}
use fsrecon.Bolt.Staged.{states_of, Holds, WatchIsRequired, stage_entries-Holds}

module _ {W K E B C F : Type 0} (config : Config W E) (ports : Ports W E) (backend : Backend K E)
    (states : Engine B Json F) (paths : Engine C Str F) (index_ports : IndexPorts B C F)
    (lawful : IsLawful states) where
  -- The actual state in the index is a map of states.
  abbrev Actual : Map FileState → BoltRun W K B C → Type 0
  Actual m r = Holds config ports backend states paths index_ports lawful m r

  -- No failure to watch a directory counts as a missing root.
  abbrev Required : Type 0
  Required = WatchIsRequired config ports backend states paths index_ports lawful

  committed-keeps :
      (P : BoltRun W K B C → Type 0) (f : StageError E F → BoltFailure E F)
      (r : Result (StageError E F) (BoltRun W K B C))
      → OnOk P r
      → OnOk P (committed config ports backend states paths index_ports f r)
  unfolding committed
  committed-keeps P f (err e r) h = tt
  committed-keeps P f (ok r) h =
      OnOk-none P (index_ports.commit r.index) (λ e. f (index_failed (engine_failed e))) r h

  -- The tracker's world is the one that the scan reads, and nothing is scanned yet.
  abbrev Starts : W → BoltRun W K B C → Type 0
  Starts w r = (r.run.tracker.world ≡ w) × Actual [] r

  put_previous-Starts :
      (w : W) (state : FileState) (r : BoltRun W K B C)
      → Starts w r
      → OnOk (Starts w) (put_previous config ports backend states paths index_ports state r)
  unfolding put_previous
  put_previous-Starts w state r h =
      OnOk-bind (Starts w) (Starts w)
        (lift_step (set_previous r)
          (states.put state.path (encode_file_state state) r.index.previous))
        (λ r'.
          lift_step (set_previous_id r')
            (index_identity paths state.id.value state.path r'.index.previous_id))
        (OnOk-lift_step (Starts w) (set_previous r)
          (states.put state.path (encode_file_state state) r.index.previous) (λ b. h))
        (λ r' h'.
          OnOk-lift_step (Starts w) (set_previous_id r')
            (index_identity paths state.id.value state.path r'.index.previous_id) (λ c. h'))

  stage_previous-Starts :
      (w : W) (store : BoltStore B) (r : BoltRun W K B C)
      → Starts w r
      → OnOk (Starts w) (stage_previous config ports backend states paths index_ports store r)
  unfolding stage_previous
  stage_previous-Starts w store r h =
      committed-keeps (Starts w) stage_previous_failed
        (map_error index_failed (
          walk_scope states store (λ _. false) config.root
            (put_previous config ports backend states paths index_ports) r))
        (OnOk-map_error (Starts w) index_failed
          (walk_scope states store (λ _. false) config.root
            (put_previous config ports backend states paths index_ports) r)
          (walk_scope-OnOk states (Starts w) store config.root _ r (put_previous-Starts w) h))

  put_expected-Holds :
      (m : Map FileState) (entry : ExpectedEntry) (path : Str) (r : BoltRun W K B C)
      → Actual m r
      → OnOk (Actual m) (put_expected config ports backend states paths index_ports entry path r)
  put_expected-Holds m entry path r h =
      OnOk-map_error (Actual m) index_failed _
        (OnOk-lift_step (Actual m) (set_expected r) _ (λ b. h))

  stage_expected_entry-Holds :
      (m : Map FileState) (allowed : Bool) (entry : ExpectedEntry) (r : BoltRun W K B C)
      → Actual m r
      → OnOk
          (Actual m)
          (stage_expected_entry config ports backend states paths index_ports allowed entry r)
  unfolding stage_expected_entry
  stage_expected_entry-Holds m allowed entry r h =
      OnOk-path (Actual m) (expected_path {E = E} config.root entry.path) expected_ended r _
        (λ path.
          OnOk-if {E = StageError E F} (Actual m)
            (str_eq path config.root && not (is_some entry.file_type) && not allowed) (ok r)
            (if not (passes_filter config path entry)
              then ok r
              else put_expected config ports backend states paths index_ports entry path r)
            h
            (OnOk-if {E = StageError E F} (Actual m) (not (passes_filter config path entry)) (ok r)
              (put_expected config ports backend states paths index_ports entry path r) h
              (put_expected-Holds m entry path r h)))

  stage_expected_entries-Holds :
      (m : Map FileState) (allowed : Bool) (entries : List ExpectedEntry) (fault : Option E)
      (r : BoltRun W K B C)
      → Actual m r
      → OnOk (Actual m) (
          stage_expected_entries config ports backend states paths index_ports allowed entries fault
            r)
  unfolding stage_expected_entries
  stage_expected_entries-Holds m allowed [] none r h = h
  stage_expected_entries-Holds m allowed [] (some e) r h = tt
  stage_expected_entries-Holds m allowed (entry ∷ entries) fault r h =
      OnOk-bind (Actual m) (Actual m) _ _ (stage_expected_entry-Holds m allowed entry r h)
        (stage_expected_entries-Holds m allowed entries fault)

  stage_expected-Holds :
      (m : Map FileState) (r : BoltRun W K B C)
      → Actual m r
      → OnOk (Actual m) (stage_expected config ports backend states paths index_ports r)
  unfolding stage_expected
  stage_expected-Holds m r h = OnOk-option (Actual m) config.expected _ _ h (λ provider.
      OnOk-path (Actual m) (root_can_be_expected config ports r.run.tracker.world)
        inspect_root_failed r _
        (λ allowed. committed-keeps (Actual m) stage_expected_failed _ (
          stage_expected_entries-Holds m allowed
            (provider.walk_expected_entries config.root r.run.tracker.world).items
            (provider.walk_expected_entries config.root r.run.tracker.world).fault r h)))

  diff_run-Holds :
      (m : Map FileState) (r : BoltRun W K B C)
      → Actual m r
      → OnOk (Actual m) (diff_run config ports backend states paths index_ports r)
  unfolding diff_run
  diff_run-Holds m r h = committed-keeps (Actual m) diff_failed _ (
      OnOk-embed (Actual m) index_failed (set_work r) (Keeps r.index.actual) _
        (λ w k p. subst (λ b. read_value {F = F} (states.get b p) ≡ ok (get m p)) (sym k) (h p))
        (diff_index-Keeps states paths config.report_event_limit r.index.actual
          (is_some config.expected) config.expected_scope (work_of r) refl))

  -- What the scan of a world hands over, as a map.
  abbrev scanned_states : W → Map FileState
  scanned_states w = put_states (states_of (ports.scan config.root w).items) []

  stage_actual-Holds :
      (w : W) (r : BoltRun W K B C)
      → Required
      → All IsWritable (states_of (ports.scan config.root w).items)
      → Starts w r
      → OnOk
          (Actual (scanned_states w))
          (stage_actual config ports backend states paths index_ports r)
  unfolding stage_actual
  stage_actual-Holds w r g a (e, h) =
      committed-keeps (Actual (scanned_states w)) stage_actual_failed _ (
        subst
          (λ v. OnOk (Actual (scanned_states w)) (
            unless_missing config ports backend states paths index_ports (
              stage_entries config ports backend states paths index_ports
                (ports.scan config.root v).items (ports.scan config.root v).fault r)))
          (sym e)
          (stage_entries-Holds config ports backend states paths index_ports lawful
            (ports.scan config.root w).items (ports.scan config.root w).fault [] r g a h))

  prepare-Holds :
      (store : BoltStore B) (r : BoltRun W K B C)
      → Required
      → All IsWritable (states_of (ports.scan config.root r.run.tracker.world).items)
      → Actual [] r
      → OnOk
          (Actual (scanned_states r.run.tracker.world))
          (prepare config ports backend states paths index_ports store r)
  unfolding prepare sync_tree deliver_index
  prepare-Holds store r g a h =
      let w = r.run.tracker.world in
      let P = Actual (scanned_states w) in
      OnOk-bind P P _ _
        (OnOk-bind P P _ _
          (OnOk-bind P P _ _
            (OnOk-bind P P _ _
              (OnOk-bind P P _ _
                (OnOk-bind (Starts w) P _ _ (stage_previous-Starts w store r (refl, h))
                  (λ s k. stage_actual-Holds w s g a k))
                (λ s k. OnOk-embed_all P sync_failed (set_run s) _ (λ t. k)))
              (λ s k. stage_expected-Holds (scanned_states w) s k))
            (λ s k. diff_run-Holds (scanned_states w) s k))
          (λ s k. k))
        (λ s k.
          OnOk-embed_all P (λ e. e) (set_world config ports backend states paths index_ports s) _
            (λ b. k))

  -- What a reconciliation leaves of the store.
  abbrev pub Outcome : BoltStore B → W → BoltReply W K B E F → Type 0
  Outcome store w reply =
      ((reply.error ≡ none)
        × ((p : Str) → get_state states false p reply.store ≡ ok (get (scanned_states w) p)))
      ⊎ ((e : BoltFailure E F) × (t : Tracker W K) × (reply.error ≡ some e)
          × (reply.tracker ≡ on_life mark_dirty t)
          × (reply.store ≡ store))

  get_state-copied :
      (store : BoltStore B) (m : Map FileState) (b : B) (r : BoltRun W K B C)
      → store.closed ≡ false
      → ((k : Str) → states.get b k ≡ states.get r.index.actual k)
      → Actual m r
      → (p : Str) → get_state states false p (record store { db = b }) ≡ ok (get m p)
  unfolding get_state
  get_state-copied store m b r c g h p =
      ap (λ x. if x then err bolt_store_closed none else read_value {F = F} (states.get b p)) c
      ∙ ap read_value (g p)
      ∙ h p

  replaced-Outcome :
      (store : BoltStore B) (w : W) (r : BoltRun W K B C)
      → store.closed ≡ false
      → Actual (scanned_states w) r
      → Outcome store w (reply_of config ports backend states paths index_ports store (ok r))
  replaced-Outcome store w r c h =
      elim (replace_snapshot-get states lawful (λ _. false) r.index.actual store) [
        | inl (b, e, g) ↦
            subst
              (λ x. Outcome store w (replaced config ports backend states paths index_ports r x))
              (sym e) (inl (refl, get_state-copied store (scanned_states w) b r c g h))
        | inr (e, f) ↦
            subst
              (λ x. Outcome store w (replaced config ports backend states paths index_ports r x))
              (sym f) (inr (replace_failed e, r.run.tracker, refl, refl, refl))
      ]

  reply_of-Outcome :
      (store : BoltStore B) (w : W) (r : Result (BoltFailure E F) (BoltRun W K B C))
      → store.closed ≡ false
      → OnOk (Actual (scanned_states w)) r
      → Outcome store w (reply_of config ports backend states paths index_ports store r)
  reply_of-Outcome store w (ok r) c h = replaced-Outcome store w r c h
  reply_of-Outcome store w (err e r) c h = inr (e, r.run.tracker, refl, refl, refl)

  with_index-Outcome :
      (store : BoltStore B) (r : Run W K) (o : Option (IndexStep × F))
      → store.closed ≡ false
      → Required
      → All IsWritable (states_of (ports.scan config.root r.tracker.world).items)
      → Outcome store r.tracker.world
          (with_index config ports backend states paths index_ports store r o)
  unfolding with_index read_value get
  with_index-Outcome store r (some (step, e)) c g a =
      inr (index_unavailable step e, r.tracker, refl, refl, refl)
  with_index-Outcome store r none c g a =
      reply_of-Outcome store r.tracker.world
        (prepare config ports backend states paths index_ports store (start r)) c
        (prepare-Holds store (start r) g a (λ p. ap read_value (lawful.get-empty p)))
    where
      start : Run W K → BoltRun W K B C
      start r = record {
        run = r;
        index = empty_index config ports backend states paths index_ports;
      }

  -- A reconciliation by way of a Bolt index, on an open store: either it succeeds, and then the
  -- store answers each `Get` with what the scan of the root handed over, and with nothing for any
  -- other path; or it returns an error, marks the tracker dirty and leaves the store as it was,
  -- whichever of its steps fails. It is assumed that the scanned states are writable, and that no
  -- failure to watch a directory counts as a missing root.
  pub reconcile_bolt-Outcome :
      (store : BoltStore B) (r : Run W K)
      → store.closed ≡ false
      → Required
      → All IsWritable (states_of (ports.scan config.root r.tracker.world).items)
      → Outcome store r.tracker.world
          (reconcile_bolt_locked config ports backend states paths index_ports store r)
  unfolding reconcile_bolt_locked
  reconcile_bolt-Outcome store r c g a = with_index-Outcome store r index_ports.make_index c g a
