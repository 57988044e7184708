-- ===== src/Bolt/Staged.antt =====
-- The actual states in the index once the scan of reconcile_bolt.go has staged them.
use fsrecon.Prelude.{
  ◌≡◌, refl, sym, subst, false, ◌&&◌, ltb, Str, Map, Option, none, some, List, [], ◌∷◌, All, str_eq,
  get, put, get-put, Result, ok, err, ◌>>=◌, OnOk, OnOk-bind, OnErr, OnErr-bind, if◌then◌else◌,
}
use fsrecon.State.{FileState, file_type_eq, file_type_regular, file_type_directory}
use fsrecon.Scanner.{Entry, state_from_entry}
use fsrecon.Config.{Config, Ports}
use fsrecon.Watchtree.{Backend, WatchError, add}
use fsrecon.Reconcile.{ScanFault, scan_error, add_watch_failed, hardlink_rejected}
use fsrecon.Reconcile.Gather.{Run, invalid_event, put_states, fault_is, watch_entry}
use fsrecon.Bolt.{Engine, IsLawful}
use fsrecon.Bolt.Json.{Json}
use fsrecon.Bolt.Codec.{encode_file_state}
use fsrecon.Bolt.Snapshot.{read_value}
use fsrecon.Bolt.Contract.{IsWritable, written, read-if}
use fsrecon.Bolt.Frame.{OnOk-lift_step, OnOk-if, Keeps, stage_report_event-Keeps}
use fsrecon.Bolt.Reconcile.{
  StageError, index_failed, scan_ended, expected_ended, IndexPorts, BoltRun, put_actual,
  stage_links, watch_directory, stage_entry, stage_entries, unless_missing, set_run, set_work,
  set_actual, work_of,
}
use fsrecon.Bolt.Steps.{
  OnOk-embed, OnOk-map_error, OnErr-map_error, OnErr-embed, OnErr-any, OnOk-embed_all, OnOk-lift_ok,
  OnOk-policy, OnErr-if, OnErr-policy, OnErr-tree, OnErr-option,
}

abbrev pub states_of : List Entry → List FileState
states_of [] = []
states_of (entry ∷ entries) = state_from_entry entry ∷ states_of entries

-- The errors that the callback of the scan may end with.
abbrev IsCallback : {E F : Type 0} → StageError E F → Type 0
IsCallback (index_failed e) = Unit {0}
IsCallback (scan_ended (scan_error e)) = ⊥
IsCallback (scan_ended (add_watch_failed e)) = Unit {0}
IsCallback (scan_ended (hardlink_rejected p)) = Unit {0}
IsCallback (expected_ended e) = ⊥

abbrev IsWatchFault : {E : Type 0} → ScanFault E → Type 0
IsWatchFault (scan_error e) = ⊥
IsWatchFault (add_watch_failed e) = Unit {0}
IsWatchFault (hardlink_rejected p) = ⊥

module _ {W K E B C F : Type 0} (config : Config W E) (ports : Ports W E) (backend : Backend K E)
    (states : Engine B Json F) (paths : Engine C Str F) (index_ports : IndexPorts B C F)
    (lawful : IsLawful states) where
  -- The actual state in the index is a map of states.
  abbrev pub Holds : Map FileState → BoltRun W K B C → Type 0
  Holds m r = (p : Str) → read_value {F = F} (states.get r.index.actual p) ≡ ok (get m p)

  watch_directory-Holds :
      (m : Map FileState) (state : FileState) (r : BoltRun W K B C)
      → Holds m r
      → OnOk (Holds m) (watch_directory config ports backend states paths index_ports state r)
  unfolding watch_directory
  watch_directory-Holds m state r h = OnOk-embed_all (Holds m) _ (set_run r) _ (λ a. h)

  stage_links-Holds :
      (m : Map FileState) (entry : Entry) (state : FileState) (r : BoltRun W K B C)
      → Holds m r
      → OnOk (Holds m) (stage_links config ports backend states paths index_ports entry state r)
  unfolding stage_links
  stage_links-Holds m entry state r h =
      OnOk-if (Holds m) (file_type_eq state.file_type file_type_regular && ltb 1 entry.links) _ _
        (OnOk-policy (Holds m) config.hardlink_policy _ _ _ tt
          (OnOk-embed (Holds m) index_failed (set_work r) (Keeps r.index.actual) _
            (λ w k p. subst (λ b. read_value {F = F} (states.get b p) ≡ ok (get m p)) (sym k) (h p))
            (stage_report_event-Keeps states config.report_event_limit r.index.actual
              (invalid_event state) (work_of r) refl))
          h)
        h

  put_actual-Holds :
      (m : Map FileState) (state : FileState) (r : BoltRun W K B C)
      → IsWritable state
      → Holds m r
      → OnOk
          (Holds (put m state.path state))
          (put_actual config ports backend states paths index_ports state r)
  unfolding put_actual
  put_actual-Holds m state r w h = OnOk-map_error (Holds (put m state.path state)) index_failed _ (
      OnOk-bind (Holds (put m state.path state)) (Holds (put m state.path state)) _ _
        (OnOk-lift_ok (Holds (put m state.path state)) (set_actual r)
          (states.put state.path (encode_file_state state) r.index.actual)
          (λ b e p.
            read-if (str_eq state.path p) (some (encode_file_state state))
              (states.get r.index.actual p) (states.get b p) (some state) (get m p)
              (get (put m state.path state) p)
              (lawful.get-put state.path (encode_file_state state) r.index.actual b p e)
              (get-put m state.path p state) (written state w) (h p)))
        (λ r' h'. OnOk-lift_step (Holds (put m state.path state)) _ _ (λ c. h')))

  stage_entry-Holds :
      (m : Map FileState) (entry : Entry) (r : BoltRun W K B C)
      → IsWritable (state_from_entry entry)
      → Holds m r
      → OnOk
          (Holds (put m (state_from_entry entry).path (state_from_entry entry)))
          (stage_entry config ports backend states paths index_ports entry r)
  unfolding stage_entry
  stage_entry-Holds m entry r w h =
      OnOk-bind (Holds m) _ _ _
        (OnOk-bind (Holds m) (Holds m) _ _ (watch_directory-Holds m (state_from_entry entry) r h)
          (stage_links-Holds m entry (state_from_entry entry)))
        (λ r' h'. put_actual-Holds m (state_from_entry entry) r' w h')

  watch_entry-IsWatchFault :
      (state : FileState) (r : Run W K)
      → OnErr IsWatchFault (watch_entry config ports backend state r)
  unfolding watch_entry
  watch_entry-IsWatchFault state r =
      OnErr-if IsWatchFault (file_type_eq state.file_type file_type_directory && config.recursive) _
        _
        (OnErr-option IsWatchFault r.tracker.watch_tree _ _ tt (λ tree.
          OnErr-tree IsWatchFault add_watch_failed _ _ (add backend state.path tree) (λ e. tt)))
        tt

  -- No error of the callback is one of the scan itself.
  stage_entry-IsCallback :
      (entry : Entry) (r : BoltRun W K B C)
      → OnErr IsCallback (stage_entry config ports backend states paths index_ports entry r)
  unfolding stage_entry watch_directory stage_links put_actual
  stage_entry-IsCallback entry r =
      OnErr-bind IsCallback _ _
        (OnErr-bind IsCallback _ _
          (OnErr-embed IsCallback scan_ended (set_run r) IsWatchFault _ watch-IsCallback
            (watch_entry-IsWatchFault (state_from_entry entry) r.run))
          (λ r'.
            OnErr-if IsCallback
              (file_type_eq (state_from_entry entry).file_type file_type_regular
                && ltb 1 entry.links)
              _ _
              (OnErr-policy IsCallback config.hardlink_policy _ _ _ tt
                (OnErr-embed IsCallback index_failed (set_work r') (λ _. Unit {0}) _ (λ e _. tt)
                  (OnErr-any (λ _. Unit {0}) _ (λ e. tt)))
                tt)
              tt))
        (λ r'. OnErr-map_error IsCallback index_failed _ (λ e. tt))
    where
      watch-IsCallback :
          (f : ScanFault E) → IsWatchFault f → IsCallback {E = E} {F = F} (scan_ended f)
      watch-IsCallback (add_watch_failed e) h = tt
      watch-IsCallback (scan_error e) h = h
      watch-IsCallback (hardlink_rejected p) h = tt

  -- No failure to watch a directory counts as a missing root.
  abbrev pub WatchIsRequired : Type 0
  WatchIsRequired =
      (e : WatchError E)
      → fault_is config ports backend (λ x. ports.is_not_exist x) (add_watch_failed e) ≡ false

  unless_missing-bind :
      (P Q : BoltRun W K B C → Type 0) (r : Result (StageError E F) (BoltRun W K B C))
      (f : BoltRun W K B C → Result (StageError E F) (BoltRun W K B C))
      → WatchIsRequired
      → OnErr IsCallback r
      → OnOk P r
      → ((s : BoltRun W K B C)
          → P s
          → OnOk Q (unless_missing config ports backend states paths index_ports (f s)))
      → OnOk Q (unless_missing config ports backend states paths index_ports (r >>= f))
  unless_missing-bind P Q (ok s) f w c h k = k s h
  unless_missing-bind P Q (err (index_failed e) s) f w c h k = tt
  unless_missing-bind P Q (err (scan_ended (scan_error e)) s) f w c h k = absurd c
  unless_missing-bind P Q (err (scan_ended (hardlink_rejected p)) s) f w c h k = tt
  unless_missing-bind P Q (err (expected_ended e) s) f w c h k = absurd c
  unless_missing-bind P Q (err (scan_ended (add_watch_failed e)) s) f w c h k =
      subst
        (λ b.
          OnOk {E = StageError E F} Q (if b then ok s else err (scan_ended (add_watch_failed e)) s))
        (sym (w e)) tt

  pub stage_entries-Holds :
      (entries : List Entry) (fault : Option E) (m : Map FileState) (r : BoltRun W K B C)
      → WatchIsRequired
      → All IsWritable (states_of entries)
      → Holds m r
      → OnOk (Holds (put_states (states_of entries) m)) (
          unless_missing config ports backend states paths index_ports
            (stage_entries config ports backend states paths index_ports entries fault r))
  unfolding stage_entries put_states
  stage_entries-Holds [] none m r w a h = h
  stage_entries-Holds [] (some e) m r w a h =
      OnOk-if (Holds m) (ports.is_not_exist e) (ok r) (err (scan_ended (scan_error e)) r) h tt
  stage_entries-Holds (entry ∷ entries) fault m r w a h =
      unless_missing-bind (Holds (put m (state_from_entry entry).path (state_from_entry entry))) _ _
        _ w (stage_entry-IsCallback entry r) (stage_entry-Holds m entry r a.0 h)
        (λ r' h'. stage_entries-Holds entries fault _ r' w a.1 h')
