-- ===== src/Debounce/Quiet.antt =====
-- When the timer of internal/debounce/debounce.go fires.
use fsrecon.Prelude.{
  ℕ, ◌+◌, ◌<◌, ◌≡◌, refl, sym, subst, arith, ap, ◌∙◌, Bool, true, false, not, ◌&&◌, ◌||◌, Option,
  none, some, List, [], ◌∷◌, leb, if◌then◌else◌,
}
use fsrecon.Debounce.{
  Clock, Timer, new, triggered, trigger, stop, pass, is_ready, receive, Step, triggers, stops,
  receives, passes, step, run, pass_all,
}

abbrev pub total : List ℕ → ℕ
total [] = 0
total (d ∷ ds) = d + total ds

-- A running timer has not fired.
abbrev IsCalm : Option Clock → Type 0
IsCalm none = Unit {0}
IsCalm (some c) = not c.running || not c.fired ≡ true

step-IsCalm :
    (s : Step) (window now : ℕ) (h : Bool) (o : Option Clock)
    → IsCalm o
    → IsCalm (step s (record { window = window; timer = o; has_channel = h; now = now })).timer
unfolding trigger stop pass receive is_ready
step-IsCalm triggers window now h none c = refl
step-IsCalm triggers window now h (some k) c = ground (arith, c)
step-IsCalm stops window now h none c = c
step-IsCalm stops window now h (some k) c = ground (arith, c)
step-IsCalm receives window now true none c = c
step-IsCalm receives window now false none c = c
step-IsCalm receives window now h (some k) c = ground (arith, c)
step-IsCalm (passes d) window now h none c = c
step-IsCalm (passes d) window now h (some k) c = ground (arith, c)

run-IsCalm : (steps : List Step) (t : Timer) → IsCalm t.timer → IsCalm (run steps t).timer
unfolding run
run-IsCalm [] t c = c
run-IsCalm (s ∷ steps) t c =
    run-IsCalm steps (step s t) (step-IsCalm s t.window t.now t.has_channel t.timer c)

step-window : (s : Step) (t : Timer) → (step s t).window ≡ t.window
unfolding trigger stop pass receive is_ready
step-window triggers t = triggered-window t.timer
  where
    triggered-window : (o : Option Clock) → (triggered t o).window ≡ t.window
    triggered-window none = refl
    triggered-window (some c) = refl
step-window stops t = refl
step-window receives t = ground arith
step-window (passes d) t = refl

run-window : (steps : List Step) (t : Timer) → (run steps t).window ≡ t.window
unfolding run
run-window [] t = refl
run-window (s ∷ steps) t = run-window steps (step s t) ∙ step-window s t

-- A timer that runs, has fired, or whose value was taken.
abbrev going : ℕ → ℕ → ℕ → Timer
going window due now = record {
  window = window;
  timer = some (record { running = true; due = due; fired = false });
  has_channel = true;
  now = now;
}

abbrev gone : Bool → ℕ → ℕ → ℕ → Timer
gone fired window due now = record {
  window = window;
  timer = some (record { running = false; due = due; fired = fired });
  has_channel = true;
  now = now;
}

abbrev going_or_gone : Bool → ℕ → ℕ → ℕ → Timer
going_or_gone false = going
going_or_gone true = gone true

pass_all-gone :
    (ds : List ℕ) (fired : Bool) (window due now : ℕ)
    → pass_all ds (gone fired window due now) ≡ gone fired window due (now + total ds)
unfolding pass_all pass
pass_all-gone [] fired window due now = ap (gone fired window due) (omega arith)
pass_all-gone (d ∷ ds) fired window due now =
    pass_all-gone ds fired window due (now + d) ∙ ap (gone fired window due) (omega arith)

pass-going :
    (d window due now : ℕ)
    → pass d (going window due now) ≡ going_or_gone (leb due (now + d)) window due (now + d)
unfolding pass
pass-going d window due now = passed (leb due (now + d))
  where
    passed :
        (b : Bool)
        → record {
          window = window;
          timer = some (
              if b
              then record { running = false; due = due; fired = true }
              else record { running = true; due = due; fired = false });
          has_channel = true;
          now = now + d;
        }
          ≡ going_or_gone b window due (now + d)
    passed true = refl
    passed false = refl

leb-early : (due now : ℕ) → now < due → leb due now ≡ false
leb-early due now l = ground (arith, l)

leb-late : (due now d : ℕ) → leb due now ≡ true → leb due (now + d) ≡ true
leb-late due now d e = ground (arith, e)

leb-shift : (n a b : ℕ) → leb (n + a) (n + b) ≡ leb a b
leb-shift n a b = ground arith

pass_all-going :
    (ds : List ℕ) (window due now : ℕ)
    → now < due
    → pass_all ds (going window due now)
      ≡ going_or_gone (leb due (now + total ds)) window due (now + total ds)
unfolding pass_all
pass_all-going [] window due now l =
    ap (λ b. going_or_gone b window due now) (sym (leb-early due now l))
    ∙ ap (λ n. going_or_gone (leb due n) window due n) (omega arith)
pass_all-going (d ∷ ds) window due now l =
    ap (pass_all ds) (pass-going d window due now)
    ∙ passed (leb due (now + d)) refl
        (λ e. pass_all-going ds window due (now + d) (ground (arith, e)))
    ∙ ap (λ n. going_or_gone (leb due n) window due n) (omega arith)
  where
    passed :
        (b : Bool)
        → leb due (now + d) ≡ b
        → (leb due (now + d) ≡ false
            → pass_all ds (going window due (now + d))
              ≡ going_or_gone (leb due (now + d + total ds)) window due (now + d + total ds))
        → pass_all ds (going_or_gone b window due (now + d))
          ≡ going_or_gone (leb due (now + d + total ds)) window due (now + d + total ds)
    passed true e k =
        pass_all-gone ds true window due (now + d)
        ∙ ap (λ b. going_or_gone b window due (now + d + total ds))
            (sym (leb-late due (now + d) (total ds) e))
    passed false e k = k e

triggered-going :
    (o : Option Clock) (t : Timer)
    → IsCalm o
    → triggered t o ≡ going t.window (t.now + t.window) t.now
triggered-going none t c = refl
triggered-going (some k) t c = ground (arith, c)

-- After a late or a lost trigger, too.
after_window :
    (b : Bool) (es : List ℕ) (window due now : ℕ)
    → (b ≡ false → now < due)
    → (is_ready (going_or_gone b window due now) ≡ b)
      × (is_ready (pass_all es (receive (going_or_gone b window due now)))
          ≡ not b && leb due (now + total es))
unfolding is_ready receive
after_window true es window due now l = (refl, ap is_ready (pass_all-gone es false window due now))
after_window false es window due now l = (
  refl,
  ap is_ready (pass_all-going es window due now (l refl)) ∙ ready_as (leb due (now + total es)),
)
  where
    ready_as : (b : Bool) → is_ready (going_or_gone b window due (now + total es)) ≡ b
    ready_as true = refl
    ready_as false = refl

trigger-pass_all :
    (window : ℕ) (steps : List Step) (ds : List ℕ)
    → 0 < window
    → let n = (run steps (new window)).now in
      pass_all ds (trigger (run steps (new window)))
      ≡ going_or_gone (leb (n + window) (n + total ds)) window (n + window) (n + total ds)
unfolding trigger
trigger-pass_all window steps ds l =
    let t = run steps (new window) in
    ap (pass_all ds) (triggered-going t.timer t (run-IsCalm steps (new window) tt))
    ∙ ap (λ v. pass_all ds (going v (t.now + v) t.now)) (run-window steps (new window))
    ∙ pass_all-going ds window (t.now + window) t.now (omega arith)

-- After a `Trigger`, whatever was done before, nothing is received until the window has passed, and
-- then once: the timer is ready exactly when the times that passed since amount to the window, and
-- when its value was asked for, exactly when that came too early and the window has passed now. The
-- window is not zero, and meanwhile there is no other call.
pub trigger-is_ready :
    (window : ℕ) (steps : List Step) (ds es : List ℕ)
    → 0 < window
    → let t = pass_all ds (trigger (run steps (new window))) in
      (is_ready t ≡ leb window (total ds))
      × (is_ready (pass_all es (receive t))
          ≡ not (leb window (total ds)) && leb window (total ds + total es))
trigger-is_ready window steps ds es l =
    let t = run steps (new window) in
    let m = t.now + total ds in
    let due = t.now + window in
    let p = after_window (leb due m) es window due m (λ e. ground (arith, e)) in
    subst
      (λ u.
        (is_ready u ≡ leb window (total ds))
        × (is_ready (pass_all es (receive u))
            ≡ not (leb window (total ds)) && leb window (total ds + total es)))
      (sym (trigger-pass_all window steps ds l))
      (
        p.0 ∙ leb-shift t.now window (total ds),
        p.1
            ∙ ap (λ b. not b && leb due (m + total es)) (leb-shift t.now window (total ds))
            ∙ ap (λ n. not (leb window (total ds)) && leb due n) (omega arith)
            ∙ ap (λ b. not (leb window (total ds)) && b)
                (leb-shift t.now window (total ds + total es)),
      )
