-- ===== src/Reconcile/Outcomes.antt =====
-- reconcile.go: gathering a generation changes nothing of a tracker but its watch tree.
use fsrecon.Prelude.{
  ◌≡◌, refl, ◌∙◌, sym, subst, arith, Bool, true, false, Str, Option, none, some, List, [], ◌∷◌,
  Result, ok, err, ◌>>=◌, final, Option-cases, inl, inr,
}
use fsrecon.State.{FileState}
use fsrecon.Config.{Config, Ports, Stat, stat_found, stat_missing, stat_failed}
use fsrecon.Scanner.{Entry, state_from_entry}
use fsrecon.Watchtree.{Backend}
use fsrecon.Diff
use fsrecon.Diff.Spec.{all_changes}
use fsrecon.Diff.Refines.{walk_diff_scoped-feed, feed}
use fsrecon.Convert.{to_internal_states}
use fsrecon.Reconcile.{Tracker, ScanFault}
use fsrecon.Reconcile.Gather.{
  Run, load_previous, put_states, watch_entry, check_links, scan_entry, scan_entries, scan_outcome,
  enter_scope, keep_entry, scan_scope, scan_scopes, sync_watches, load_expected, record_change,
  diff_states, add_policy_events, orphan_eligible, gather,
}

-- A tracker without its watch tree.
abbrev pub core : {W B : Type 0} → Tracker W B → Tracker W B
core t = record t { watch_tree = none }

abbrev pub IsKept : {W B F : Type 0} → Run W B → Result F (Run W B) → Type 0
IsKept r x = core (final x).tracker ≡ core r.tracker

IsKept-bind :
    {W B F : Type 0} (r : Run W B) (x : Result F (Run W B)) (f : Run W B → Result F (Run W B))
    → IsKept r x
    → ((s : Run W B) → IsKept s (f s))
    → IsKept r (x >>= f)
IsKept-bind r (ok s) f h k = k s ∙ h
IsKept-bind r (err e s) f h k = h

module _ {W B E : Type 0} (config : Config W E) (ports : Ports W E) (backend : Backend B E) where
  load_previous-IsKept :
      (scopes : List Str) (r : Run W B) → IsKept r (load_previous config ports backend scopes r)
  unfolding load_previous
  load_previous-IsKept [] r = refl
  load_previous-IsKept (scope ∷ scopes) r =
      let s = ports.walk_snapshot scope r.tracker.world in
      let r' : Run W B = record r { previous = put_states s.items r.previous } in
      elim (Option-cases s.fault) [
        | inl e ↦ rw (e, load_previous) (load_previous-IsKept scopes r')
        | inr (x, e) ↦ rw (e, load_previous) refl
      ]

  watch_entry-IsKept :
      (state : FileState) (r : Run W B) → IsKept r (watch_entry config ports backend state r)
  unfolding watch_entry
  watch_entry-IsKept state r = ground arith

  check_links-IsKept :
      (entry : Entry) (state : FileState) (r : Run W B)
      → IsKept r (check_links config ports backend entry state r)
  unfolding check_links
  check_links-IsKept entry state r = ground arith

  scan_entries-IsKept :
      (entries : List Entry) (fault : Option E) (r : Run W B)
      → IsKept r (scan_entries config ports backend entries fault r)
  unfolding scan_entries scan_entry
  scan_entries-IsKept [] none r = refl
  scan_entries-IsKept [] (some e) r = refl
  scan_entries-IsKept (entry ∷ entries) fault r =
      let state = state_from_entry entry in
      IsKept-bind r (scan_entry config ports backend entry r)
        (scan_entries config ports backend entries fault)
        (IsKept-bind r
          (watch_entry config ports backend state r
            >>= check_links config ports backend entry state)
          (keep_entry config ports backend state)
          (IsKept-bind r (watch_entry config ports backend state r)
            (check_links config ports backend entry state) (watch_entry-IsKept state r)
            (check_links-IsKept entry state))
          (λ s. refl))
        (scan_entries-IsKept entries fault)

  scan_outcome-IsKept :
      (scope : Str) (r : Run W B) (x : Result (ScanFault E) (Run W B))
      → IsKept r x
      → IsKept r (scan_outcome config ports backend scope x)
  scan_outcome-IsKept scope r (ok s) h = h
  scan_outcome-IsKept scope r (err f s) h = ground arith

  enter_scope-core :
      (d : Bool) (scope : Str) (r : Run W B)
      → core (enter_scope config ports backend d scope r).tracker ≡ core r.tracker
  enter_scope-core true scope r = refl
  enter_scope-core false scope r = refl

  scan_scope-IsKept :
      (scope : Str) (r : Run W B) (stat : Stat E)
      → IsKept r (scan_scope config ports backend scope r stat)
  unfolding scan_scope
  scan_scope-IsKept scope r stat_missing = refl
  scan_scope-IsKept scope r (stat_failed e) = refl
  scan_scope-IsKept scope r (stat_found d) =
      let s = ports.scan scope r.tracker.world in
      let r' = enter_scope config ports backend d scope r in
      scan_outcome-IsKept scope r (scan_entries config ports backend s.items s.fault r')
        (scan_entries-IsKept s.items s.fault r' ∙ enter_scope-core d scope r)

  scan_scopes-IsKept :
      (scopes : List Str) (r : Run W B) → IsKept r (scan_scopes config ports backend scopes r)
  unfolding scan_scopes
  scan_scopes-IsKept [] r = refl
  scan_scopes-IsKept (scope ∷ scopes) r =
      IsKept-bind r (scan_scope config ports backend scope r (ports.lstat scope r.tracker.world))
        (scan_scopes config ports backend scopes)
        (scan_scope-IsKept scope r (ports.lstat scope r.tracker.world)) (scan_scopes-IsKept scopes)

  sync_watches-IsKept :
      (scopes : List Str) (r : Run W B) → IsKept r (sync_watches config ports backend scopes r)
  unfolding sync_watches
  sync_watches-IsKept scopes r = ground arith

  load_expected-IsKept :
      (scopes : List Str) (r : Run W B) → IsKept r (load_expected config ports backend scopes r)
  unfolding load_expected
  load_expected-IsKept scopes r = ground arith

  feed-IsKept :
      (cs : List Diff.Change) (r : Run W B)
      → IsKept r (feed (record_change config ports backend) cs r)
  unfolding feed record_change
  feed-IsKept [] r = refl
  feed-IsKept (c ∷ cs) r = feed-IsKept cs (final (record_change config ports backend c r))

  diff_states-IsKept : (r : Run W B) → IsKept r (diff_states config ports backend r)
  unfolding diff_states
  diff_states-IsKept r =
      let previous = to_internal_states r.previous in
      let actual = to_internal_states r.actual in
      let only = orphan_eligible config ports backend in
      subst (IsKept r)
        (sym (
          walk_diff_scoped-feed (record_change config ports backend) previous actual r.expected
            (some only) r))
        (feed-IsKept (all_changes previous actual r.expected (some only)) r)

  -- Gathering a generation, whether or not it fails, leaves the tracker as it was but for the watch
  -- tree; in particular the store and the sink, the generation, and what is pending.
  pub gather-IsKept :
      (scopes : List Str) (r : Run W B) → IsKept r (gather config ports backend scopes r)
  unfolding gather
  gather-IsKept scopes r =
      let a = load_previous config ports backend scopes r in
      let b = a >>= scan_scopes config ports backend scopes in
      let c = b >>= sync_watches config ports backend scopes in
      let d = c >>= load_expected config ports backend scopes in
      let e = d >>= diff_states config ports backend in
      IsKept-bind r e (add_policy_events config ports backend)
        (IsKept-bind r d (diff_states config ports backend)
          (IsKept-bind r c (load_expected config ports backend scopes)
            (IsKept-bind r b (sync_watches config ports backend scopes)
              (IsKept-bind r a (scan_scopes config ports backend scopes)
                (load_previous-IsKept scopes r) (scan_scopes-IsKept scopes))
              (sync_watches-IsKept scopes))
            (load_expected-IsKept scopes))
          diff_states-IsKept)
        (λ s. refl)
