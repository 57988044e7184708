-- ===== src/Reconcile/Ready.antt =====
-- reconcile.go: what the subtraction behind `Healthy` relies on holds of every gathered generation.
use fsrecon.Prelude.{
  ◌+◌, ◌^◌, ◌<◌, ◌≡◌, refl, ◌∙◌, ap, sym, subst, arith, true, false, Str, Option, none, some, ◌⊎◌,
  List, [], ◌∷◌, ◌++◌, All-append, put-IsMap, length, IsMap, Result, ok, err, ◌>>=◌, final,
  Result-cases, Option-cases, inl, inr,
}
use fsrecon.State.{FileState}
use fsrecon.Event.{event_invalid}
use fsrecon.Config.{Config, Ports, Stat, stat_found, stat_missing, stat_failed}
use fsrecon.Scanner.{Entry, state_from_entry}
use fsrecon.Watchtree.{Backend}
use fsrecon.Reconcile.{ScanFault, Failure, Tracker}
use fsrecon.Reconcile.Gather.{
  Run, load_previous, put_states, watch_entry, check_links, scan_entry, scan_entries, scan_outcome,
  enter_scope, keep_entry, scan_scope, scan_scopes, sync_watches, load_expected, diff_states,
  add_policy_events, gather, invalid_event,
}
use fsrecon.Expected.{load_expected_scopes}
use fsrecon.Reconcile.Commit.{healthy_of}
use fsrecon.Reconcile.Healthy.{IsReady, AreInvalid, diff_states-healthy, diff_states-actual}
use fsrecon.Reconcile.Retry.{first_run}

module _ {W B E : Type 0} (config : Config W E) (ports : Ports W E) (backend : Backend B E) where
  -- What `IsReady` speaks of stays the same.
  abbrev Unchanged : Run W B → Run W B → Type 0
  Unchanged r u =
      (u.report ≡ r.report) × (u.actual ≡ r.actual) × (u.policy_events ≡ r.policy_events)

  Unchanged-IsReady :
      (r u : Run W B)
      → Unchanged r u
      → IsReady config ports backend r
      → IsReady config ports backend u
  Unchanged-IsReady r u (a, b, c) y = record {
    no_created = ap (λ x. x.created) a ∙ y.no_created;
    no_modified = ap (λ x. x.modified) a ∙ y.no_modified;
    no_replaced = ap (λ x. x.replaced) a ∙ y.no_replaced;
    single = subst IsMap (sym b) y.single;
    policies = subst AreInvalid (sym c) y.policies;
  }

  abbrev StaysReady : {F : Type 0} → (Run W B → Result F (Run W B)) → Type 0
  StaysReady f =
      (r : Run W B) → IsReady config ports backend r → IsReady config ports backend (final (f r))

  bind-IsReady :
      {F : Type 0} (x : Result F (Run W B)) (f : Run W B → Result F (Run W B))
      → IsReady config ports backend (final x)
      → StaysReady f
      → IsReady config ports backend (final (x >>= f))
  bind-IsReady (ok r) f y h = h r y
  bind-IsReady (err e r) f y h = y

  load_previous-IsReady :
      (scopes : List Str) → StaysReady (load_previous config ports backend scopes)
  unfolding load_previous
  load_previous-IsReady [] r y = y
  load_previous-IsReady (scope ∷ scopes) r y =
      let s = ports.walk_snapshot scope r.tracker.world in
      let r' : Run W B = record r { previous = put_states s.items r.previous } in
      let y' : IsReady config ports backend r' = Unchanged-IsReady r r' (refl, refl, refl) y in
      elim (Option-cases s.fault) [
        | inl e ↦ rw (e, load_previous) (load_previous-IsReady scopes r' y')
        | inr (x, e) ↦ rw (e, load_previous) y'
      ]

  watch_entry-IsReady : (state : FileState) → StaysReady (watch_entry config ports backend state)
  unfolding watch_entry
  watch_entry-IsReady state r y = Unchanged-IsReady r _ (ground arith, ground arith, ground arith) y

  check_links-policies :
      (entry : Entry) (state : FileState) (r : Run W B)
      → ((final (check_links config ports backend entry state r)).policy_events ≡ r.policy_events)
        ⊎ ((final (check_links config ports backend entry state r)).policy_events
            ≡ r.policy_events ++ invalid_event state ∷ [])
  unfolding check_links
  check_links-policies entry state r = ground arith

  check_links-same :
      (entry : Entry) (state : FileState) (r : Run W B)
      → ((final (check_links config ports backend entry state r)).report ≡ r.report)
        × ((final (check_links config ports backend entry state r)).actual ≡ r.actual)
  unfolding check_links
  check_links-same entry state r = (ground arith, ground arith)

  check_links-IsReady :
      (entry : Entry) (state : FileState)
      → StaysReady (check_links config ports backend entry state)
  check_links-IsReady entry state r y =
      let (a, b) = check_links-same entry state r in
      record {
        no_created = ap (λ x. x.created) a ∙ y.no_created;
        no_modified = ap (λ x. x.modified) a ∙ y.no_modified;
        no_replaced = ap (λ x. x.replaced) a ∙ y.no_replaced;
        single = subst IsMap (sym b) y.single;
        policies = elim (check_links-policies entry state r) [
          | inl e ↦ subst AreInvalid (sym e) y.policies
          | inr e ↦ subst AreInvalid (sym e) (
              All-append (λ event. event.kind ≡ event_invalid) r.policy_events
                (invalid_event state ∷ []) y.policies (refl, tt))
        ];
      }

  keep_entry-IsReady : (state : FileState) → StaysReady (keep_entry config ports backend state)
  keep_entry-IsReady state r y = record {
    no_created = y.no_created;
    no_modified = y.no_modified;
    no_replaced = y.no_replaced;
    single = put-IsMap r.actual state.path state y.single;
    policies = y.policies;
  }

  scan_entries-IsReady :
      (entries : List Entry) (fault : Option E)
      → StaysReady (scan_entries config ports backend entries fault)
  unfolding scan_entries scan_entry
  scan_entries-IsReady [] none r y = y
  scan_entries-IsReady [] (some e) r y = y
  scan_entries-IsReady (entry ∷ entries) fault r y =
      let state = state_from_entry entry in
      let watched = watch_entry config ports backend state r in
      let checked = watched >>= check_links config ports backend entry state in
      bind-IsReady (checked >>= keep_entry config ports backend state)
        (scan_entries config ports backend entries fault)
        (bind-IsReady checked (keep_entry config ports backend state)
          (bind-IsReady watched (check_links config ports backend entry state)
            (watch_entry-IsReady state r y) (check_links-IsReady entry state))
          (keep_entry-IsReady state))
        (scan_entries-IsReady entries fault)

  scan_outcome-IsReady :
      (scope : Str) (x : Result (ScanFault E) (Run W B))
      → IsReady config ports backend (final x)
      → IsReady config ports backend (final (scan_outcome config ports backend scope x))
  scan_outcome-IsReady scope (ok r) y = y
  scan_outcome-IsReady scope (err f r) y =
      Unchanged-IsReady r _ (ground arith, ground arith, ground arith) y

  scan_scope-IsReady :
      (scope : Str) (stat : Stat E) → StaysReady (λ r. scan_scope config ports backend scope r stat)
  unfolding scan_scope
  scan_scope-IsReady scope stat_missing r y = y
  scan_scope-IsReady scope (stat_failed e) r y = y
  scan_scope-IsReady scope (stat_found true) r y =
      let s = ports.scan scope r.tracker.world in
      let r' = enter_scope config ports backend true scope r in
      scan_outcome-IsReady scope (scan_entries config ports backend s.items s.fault r')
        (scan_entries-IsReady s.items s.fault r' (Unchanged-IsReady r r' (refl, refl, refl) y))
  scan_scope-IsReady scope (stat_found false) r y =
      let s = ports.scan scope r.tracker.world in
      scan_outcome-IsReady scope (scan_entries config ports backend s.items s.fault r)
        (scan_entries-IsReady s.items s.fault r y)

  scan_scopes-IsReady : (scopes : List Str) → StaysReady (scan_scopes config ports backend scopes)
  unfolding scan_scopes
  scan_scopes-IsReady [] r y = y
  scan_scopes-IsReady (scope ∷ scopes) r y =
      let stat = ports.lstat scope r.tracker.world in
      bind-IsReady (scan_scope config ports backend scope r stat)
        (scan_scopes config ports backend scopes) (scan_scope-IsReady scope stat r y)
        (scan_scopes-IsReady scopes)

  sync_watches-IsReady : (scopes : List Str) → StaysReady (sync_watches config ports backend scopes)
  unfolding sync_watches
  sync_watches-IsReady scopes r y =
      Unchanged-IsReady r _ (ground arith, ground arith, ground arith) y

  load_expected-none :
      (scopes : List Str) (r : Run W B)
      → config.expected ≡ none
      → load_expected config ports backend scopes r ≡ ok (record r { expected = none })
  unfolding load_expected load_expected_scopes
  load_expected-none scopes r e = ground arith

  -- Without expected entries, the healthy entries of a gathered generation and those reported as
  -- created, modified or replaced are all that the scan found: the subtraction on `uint64` does
  -- not wrap around, as long as their number fits in one.
  pub gather-healthy :
      (scopes : List Str) (t : Tracker W B) (u : Run W B)
      → config.expected ≡ none
      → gather config ports backend scopes (first_run config ports backend t) ≡ ok u
      → length u.actual < 2 ^ 64
      → healthy_of u + u.report.created + u.report.modified + u.report.replaced ≡ length u.actual
  unfolding gather
  gather-healthy scopes t u e g l =
      let r = first_run config ports backend t in
      let a = load_previous config ports backend scopes r in
      let b = a >>= scan_scopes config ports backend scopes in
      let c = b >>= sync_watches config ports backend scopes in
      let ready : IsReady config ports backend (final c) =
        bind-IsReady b (sync_watches config ports backend scopes)
          (bind-IsReady a (scan_scopes config ports backend scopes)
            (load_previous-IsReady scopes r (record {
              no_created = refl;
              no_modified = refl;
              no_replaced = refl;
              single = tt;
              policies = tt;
            }))
            (scan_scopes-IsReady scopes))
          (sync_watches-IsReady scopes) in
      elim (Result-cases c) [
        | inl (s, k) ↦
            let v : Run W B = record s { expected = none } in
            let rest : (diff_states config ports backend v
                  >>= add_policy_events config ports backend)
                ≡ ok u =
              sym (
                ap
                  (λ x.
                    x
                    >>= load_expected config ports backend scopes
                    >>= diff_states config ports backend
                    >>= add_policy_events config ports backend)
                  k
                ∙ ap
                    (λ x.
                      x
                      >>= diff_states config ports backend
                      >>= add_policy_events config ports backend)
                    (load_expected-none scopes s e))
              ∙ g in
            let same = diff_states-actual config ports backend v u rest in
            diff_states-healthy config ports backend v u
              (Unchanged-IsReady s v (refl, refl, refl)
                (subst (λ x. IsReady config ports backend (final x)) k ready))
              refl (subst (λ m. length m < 2 ^ 64) same l) rest
            ∙ ap length (sym same)
        | inr (f, s, k) ↦ absurd (
            failed (
              sym (
                ap
                  (λ x.
                    x
                    >>= load_expected config ports backend scopes
                    >>= diff_states config ports backend
                    >>= add_policy_events config ports backend)
                  k)
              ∙ g))
      ]
    where
      failed : {f : Failure E} {s u : Run W B} → err f s ≡ ok u → ⊥
      failed x = ground arith
