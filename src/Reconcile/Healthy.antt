-- ===== src/Reconcile/Healthy.antt =====
-- reconcile.go: the subtraction behind `Healthy` of a report without expected entries.
use fsrecon.Prelude.{
  ℕ, suc, ◌+◌, ◌-◌, ◌*◌, ◌%◌, ◌^◌, ◌≤◌, ◌<◌, ◌≡◌, refl, ◌∙◌, ap, sym, subst, arith, Str, Map, none,
  some, List, [], ◌∷◌, ◌++◌, All, get, length, has, IsMap, Result, ok, ◌>>=◌, final,
}
use fsrecon.State.{FileState}
use fsrecon.Event.{Event, event_invalid, ReconcileReport}
use fsrecon.Config.{Config, Ports}
use fsrecon.Watchtree.{Backend}
use fsrecon.Convert.{event_from_change, to_internal_states, note_events}
use fsrecon.Convert.Totals.{
  Counter, counts_created, counts_modified, counts_replaced, counter_value, number_of,
  counter-note_events,
}
use fsrecon.Diff
use fsrecon.Diff.Spec.{all_changes}
use fsrecon.Diff.Refines.{walk_diff_scoped-feed, feed}
use fsrecon.Diff.Healthy.{touched, touched-all_changes}
use fsrecon.Reconcile.{Failure}
use fsrecon.Reconcile.Gather.{Run, record_change, diff_states, add_policy_events, orphan_eligible}
use fsrecon.Reconcile.Commit.{healthy_of}

abbrev pub events_of : List Diff.Change → List Event
events_of [] = []
events_of (c ∷ cs) = event_from_change c ∷ events_of cs

-- The events that `Healthy` leaves out.
abbrev pub unhealthy : List Event → ℕ
unhealthy events =
    number_of counts_created events
    + number_of counts_modified events
    + number_of counts_replaced events

unhealthy-events_of : (cs : List Diff.Change) → unhealthy (events_of cs) ≡ touched cs
unfolding number_of touched event_from_change
unhealthy-events_of [] = omega arith
unhealthy-events_of (c ∷ cs) = ground (arith, unhealthy-events_of cs)

number_of-append :
    (c : Counter) (xs ys : List Event) → number_of c (xs ++ ys) ≡ number_of c xs + number_of c ys
unfolding number_of
number_of-append c [] ys = omega arith
number_of-append c (x ∷ xs) ys = omega (arith, number_of-append c xs ys)

abbrev pub AreInvalid : List Event → Type 0
AreInvalid events = All (λ event. event.kind ≡ event_invalid) events

unhealthy-invalid : (events : List Event) → AreInvalid events → unhealthy events ≡ 0
unfolding number_of
unhealthy-invalid [] h = omega arith
unhealthy-invalid (event ∷ events) h = ground (arith, unhealthy-invalid events h.1, h.0)

length-to_internal_states : (m : Map FileState) → length (to_internal_states m) ≡ length m
unfolding to_internal_states
length-to_internal_states [] = refl
length-to_internal_states ((p, s) ∷ m) = ap suc (length-to_internal_states m)

has-to_internal_states : (m : Map FileState) (k : Str) → has (to_internal_states m) k ≡ has m k
unfolding to_internal_states get
has-to_internal_states [] k = refl
has-to_internal_states ((p, s) ∷ m) k = ground (arith, has-to_internal_states m k)

to_internal_states-IsMap : (m : Map FileState) → IsMap m → IsMap (to_internal_states m)
unfolding to_internal_states
to_internal_states-IsMap [] h = tt
to_internal_states-IsMap ((p, s) ∷ m) h =
    (has-to_internal_states m p ∙ h.0, to_internal_states-IsMap m h.1)

module _ {W B E : Type 0} (config : Config W E) (ports : Ports W E) (backend : Backend B E) where
  abbrev noted : List Event → Run W B → Run W B
  noted events r = record r {
    report = note_events config.report_event_limit events r.report;
    all_events = r.all_events ++ events;
  }

  feed-noted :
      (cs : List Diff.Change) (r : Run W B)
      → (let u = final (feed (record_change config ports backend) cs r) in
          (u.report ≡ note_events config.report_event_limit (events_of cs) r.report)
          × (u.actual ≡ r.actual)
          × (u.expected ≡ r.expected)
          × (u.policy_events ≡ r.policy_events))
  unfolding feed record_change note_events
  feed-noted [] r = (refl, refl, refl, refl)
  feed-noted (c ∷ cs) r = feed-noted cs (final (record_change config ports backend c r))

  -- A run before the diff: nothing is counted yet, and only policy events wait.
  pub record IsReady (r : Run W B) : Type 0 where
    pub no_created : r.report.created ≡ 0
    pub no_modified : r.report.modified ≡ 0
    pub no_replaced : r.report.replaced ≡ 0
    pub single : IsMap r.actual
    pub policies : AreInvalid r.policy_events

  subtract_back :
      (n c m p a b d : ℕ)
      → n < 2 ^ 64
      → a + b + d ≤ n
      → c ≡ a % 2 ^ 64
      → m ≡ b % 2 ^ 64
      → p ≡ d % 2 ^ 64
      → (n + 3 * 2 ^ 64 - c - m - p) % 2 ^ 64 + c + m + p ≡ n
  subtract_back n c m p a b d h k e f g = omega arith

  healthy_of-none :
      (r : Run W B)
      → r.expected ≡ none
      → healthy_of r
        ≡ (length r.actual + 3 * 2 ^ 64 - r.report.created - r.report.modified - r.report.replaced)
          % 2 ^ 64
  unfolding healthy_of
  healthy_of-none r h = ground arith

  -- A counter that starts at zero, after the diff and the policy events.
  counter-twice :
      (c : Counter) (limit : ℕ) (events policies : List Event) (r : ReconcileReport)
      → counter_value c r ≡ 0
      → number_of c policies ≡ 0
      → counter_value c (note_events limit policies (note_events limit events r))
        ≡ number_of c events % 2 ^ 64
  counter-twice c limit events policies r z n =
      counter-note_events c limit policies (note_events limit events r) (number_of c events)
        (counter-note_events c limit events r 0 (omega arith) ∙ ap (λ k. k % 2 ^ 64) (omega arith))
      ∙ ap (λ k. k % 2 ^ 64) (omega arith)

  balances :
      (events policies : List Event) (u r : Run W B)
      → IsReady r
      → u.expected ≡ none
      → length u.actual < 2 ^ 64
      → unhealthy events ≤ length u.actual
      → AreInvalid policies
      → u.report
        ≡ note_events config.report_event_limit policies
            (note_events config.report_event_limit events r.report)
      → healthy_of u + u.report.created + u.report.modified + u.report.replaced ≡ length u.actual
  balances events policies u r y e l h i q =
      let limit = config.report_event_limit in
      let no_policies = unhealthy-invalid policies i in
      let c =
        counter-twice counts_created limit events policies r.report y.no_created (omega arith) in
      let m =
        counter-twice counts_modified limit events policies r.report y.no_modified (omega arith) in
      let p =
        counter-twice counts_replaced limit events policies r.report y.no_replaced (omega arith) in
      ap (λ n. n + u.report.created + u.report.modified + u.report.replaced) (healthy_of-none u e)
      ∙ subtract_back (length u.actual) u.report.created u.report.modified u.report.replaced
          (number_of counts_created events) (number_of counts_modified events)
          (number_of counts_replaced events) l h (ap (λ x. x.created) q ∙ c)
          (ap (λ x. x.modified) q ∙ m) (ap (λ x. x.replaced) q ∙ p)

  feed-ok :
      (cs : List Diff.Change) (r : Run W B)
      → feed (record_change config ports backend) cs r
        ≡ ok (final (feed (record_change config ports backend) cs r))
  unfolding feed record_change
  feed-ok [] r = refl
  feed-ok (c ∷ cs) r = feed-ok cs (final (record_change config ports backend c r))

  changes_of : Run W B → List Diff.Change
  changes_of r =
      all_changes (to_internal_states r.previous) (to_internal_states r.actual) r.expected
        (some (orphan_eligible config ports backend))

  diff_states-feed :
      (r : Run W B)
      → diff_states config ports backend r
        ≡ feed (record_change config ports backend) (changes_of r) r
  unfolding diff_states changes_of
  diff_states-feed r =
      walk_diff_scoped-feed (record_change config ports backend) (to_internal_states r.previous)
        (to_internal_states r.actual) r.expected (some (orphan_eligible config ports backend)) r

  changes_of-fit :
      (r : Run W B) → IsMap r.actual → unhealthy (events_of (changes_of r)) ≤ length r.actual
  unfolding changes_of
  changes_of-fit r h =
      let fits =
        touched-all_changes (to_internal_states r.previous) (to_internal_states r.actual) r.expected
          (some (orphan_eligible config ports backend)) (to_internal_states-IsMap r.actual h) in
      omega (arith, unhealthy-events_of (changes_of r), length-to_internal_states r.actual)

  -- After the diff and the policy events the subtraction does not wrap around: the healthy entries
  -- and those that were created, modified or replaced are all that the scan found.
  pub diff_states-healthy :
      (r u : Run W B)
      → IsReady r
      → r.expected ≡ none
      → length r.actual < 2 ^ 64
      → (diff_states config ports backend r >>= add_policy_events config ports backend) ≡ ok u
      → healthy_of u + u.report.created + u.report.modified + u.report.replaced ≡ length r.actual
  diff_states-healthy r u y e l x =
      let v = final (feed (record_change config ports backend) (changes_of r) r) in
      let (report, actual, expected, policies) = feed-noted (changes_of r) r in
      let done : ok (final (add_policy_events config ports backend v)) ≡ ok u =
        sym (
          ap (λ d. d >>= add_policy_events config ports backend)
            (diff_states-feed r ∙ feed-ok (changes_of r) r))
        ∙ x in
      let same : final (add_policy_events config ports backend v) ≡ u = ap final done in
      subst
        (λ w.
          healthy_of w + w.report.created + w.report.modified + w.report.replaced ≡ length r.actual)
        same
        (balances (events_of (changes_of r)) v.policy_events
            (final (add_policy_events config ports backend v)) r y (expected ∙ e)
            (subst (λ m. length m < 2 ^ 64) (sym actual) l)
            (subst (λ m. unhealthy (events_of (changes_of r)) ≤ length m) (sym actual)
              (changes_of-fit r y.single))
            (subst AreInvalid (sym policies) y.policies)
            (ap (note_events config.report_event_limit v.policy_events) report)
          ∙ ap length actual)

  pub diff_states-actual :
      (r u : Run W B)
      → (diff_states config ports backend r >>= add_policy_events config ports backend) ≡ ok u
      → u.actual ≡ r.actual
  diff_states-actual r u x =
      let (report, actual, expected, policies) = feed-noted (changes_of r) r in
      sym (
        ap (λ (d : Result (Failure E) (Run W B)). (final d).actual)
          (sym (
              ap (λ d. d >>= add_policy_events config ports backend)
                (diff_states-feed r ∙ feed-ok (changes_of r) r))
            ∙ x))
      ∙ actual
