-- ===== src/Debounce.antt =====
-- internal/debounce/debounce.go: the quiet-period timer, on a clock that steps of the run advance.
-- A `time.Timer` is a deadline and a channel with room for one value.
pub mod Quiet
use fsrecon.Prelude.{
  ℕ, ◌+◌, ◌<◌, ◌≡◌, refl, sym, subst, arith, ap, ◌∙◌, Bool, true, false, not, ◌&&◌, ◌||◌, Option,
  none, some, List, [], ◌∷◌, leb, if◌then◌else◌,
}

-- A `time.Timer`: when it fires, unless it has fired or is stopped, and is there a value in `C`?
pub record Clock : Type 0 where
  pub running : Bool
  pub due : ℕ
  pub fired : Bool

-- The timer, where one was made; is `ch` its channel, or nil? And the time.
pub record Timer : Type 0 where
  pub window : ℕ
  pub timer : Option Clock
  pub has_channel : Bool
  pub now : ℕ

-- `New`
abbrev pub new : ℕ → Timer
new window = record { window = window; timer = none; has_channel = false; now = 0 }

-- `time.NewTimer` and `Reset`, and `Stop`; a deadline passes.
abbrev pub reset : ℕ → Clock → Clock
reset due c = record c { running = true; due = due }

abbrev pub halt : Clock → Clock
halt c = record c { running = false }

abbrev pub pass_clock : ℕ → Clock → Clock
pass_clock now c =
    if c.running && leb c.due now then record c { running = false; fired = true } else c

-- A timer that `Stop` did not find running may have fired: its value is taken.
abbrev pub restart : ℕ → Clock → Clock
restart due c = if c.running then reset due (halt c) else reset due (record c { fired = false })

abbrev pub set_clock : Timer → Clock → Timer
set_clock t c = record t { timer = some c; has_channel = true }

abbrev pub triggered : Timer → Option Clock → Timer
triggered t none = set_clock t (record { running = true; due = t.now + t.window; fired = false })
triggered t (some c) = set_clock t (restart (t.now + t.window) c)

-- `Trigger`
unfoldable pub trigger : Timer → Timer
trigger t = triggered t t.timer

abbrev pub on_clock : (Clock → Clock) → Option Clock → Option Clock
on_clock f none = none
on_clock f (some c) = some (f c)

-- `Stop`
unfoldable pub stop : Timer → Timer
stop t = record t { timer = on_clock halt t.timer; has_channel = false }

-- Time passes.
unfoldable pub pass : ℕ → Timer → Timer
pass d t = record t { timer = on_clock (pass_clock (t.now + d)) t.timer; now = t.now + d }

abbrev pub has_fired : Option Clock → Bool
has_fired none = false
has_fired (some c) = c.fired

-- Can the run loop receive from `C()`?
unfoldable pub is_ready : Timer → Bool
is_ready t = t.has_channel && has_fired t.timer

abbrev pub take : Clock → Clock
take c = record c { fired = false }

-- It does.
unfoldable pub receive : Timer → Timer
unfolding is_ready
receive t = if is_ready t then record t { timer = on_clock take t.timer } else t

pub data Step : Type 0 where
  triggers stops receives : Step
  passes : ℕ → Step

abbrev pub step : Step → Timer → Timer
step triggers t = trigger t
step stops t = stop t
step receives t = receive t
step (passes d) t = pass d t

unfoldable pub run : List Step → Timer → Timer
run [] t = t
run (s ∷ steps) t = run steps (step s t)

unfoldable pub pass_all : List ℕ → Timer → Timer
unfolding pass
pass_all [] t = t
pass_all (d ∷ ds) t = pass_all ds (pass d t)
