-- ===== src/Fsnotify/Safe.antt =====
-- The native watcher of internal/backend/fsnotify/backend.go in every interleaving.
use fsrecon.Prelude.{
  ℕ, ◌≤◌, ◌≡◌, refl, arith, Bool, true, false, not, ◌||◌, Str, List, [], ◌∷◌, length, length-append,
  final, if◌then◌else◌,
}
use fsrecon.FilePath.{clean}
use fsrecon.Fsnotify.{
  NativeOp, Library, NativeError, queue_overflow, Native, new, map_op, start, add, remove,
  close_native, begin_close, end_close, send_error, pump_event, pump_error, pump_end,
}

-- What happens to a native watcher: calls of its methods, turns of its pump, and a consumer that
-- takes an event or an error.
pub data Step (E : Type 0) : Type 0 where
  starts : Bool → Str → Step E
  adds removes : Str → Step E
  begins_close ends_close : Step E
  pumps_event : Str → NativeOp → Step E
  pumps_error : E → Step E
  pump_ends takes_event takes_error : Step E

abbrev pub tail {ℓ} : {A : Type ℓ} → List A → List A
tail [] = []
tail (x ∷ xs) = xs

module _ {V E : Type 0} (library : Library V E) where
  -- The pump takes its turns while it runs.
  abbrev pub step : Step E → Native V E → Native V E
  step (starts cancelled root) n = final (start library cancelled root n)
  step (adds path) n = final (add library path n)
  step (removes path) n = final (remove library path n)
  step begins_close n = begin_close library n
  step ends_close n = end_close library n
  step (pumps_event name op) n = if n.pumping then pump_event library name op n else n
  step (pumps_error e) n = if n.pumping then pump_error library e n else n
  step pump_ends n = if n.pumping then pump_end library n else n
  step takes_event n = record n { events = tail n.events }
  step takes_error n = record n { errors = tail n.errors }

  unfoldable pub run_steps : List (Step E) → Native V E → Native V E
  run_steps [] n = n
  run_steps (s ∷ steps) n = run_steps steps (step s n)

abbrev pub IsSafe : {V E : Type 0} → Native V E → Type 0
IsSafe n =
    (n.panicked ≡ false)
    × (length n.events ≤ n.buffer)
    × (length n.errors ≤ 16)
    × (not n.outputs_closed || not n.pumping ≡ true)
    × (not n.outputs_closed || n.started || n.closed ≡ true)
    × (not n.pumping || n.started ≡ true)

shorter {ℓ} : {A : Type ℓ} (xs : List A) {k : ℕ} → length xs ≤ k → length (tail xs) ≤ k
shorter [] l = l
shorter (x ∷ xs) l = omega arith

while_pumping :
    {V E : Type 0} (b : Bool) (m n : Native V E)
    → (b ≡ true → IsSafe m)
    → IsSafe n
    → IsSafe (if b then m else n)
while_pumping true m n h s = h refl
while_pumping false m n h s = s

module _ {V E : Type 0} (library : Library V E) where
  start-IsSafe :
      (cancelled : Bool) (root : Str) (n : Native V E)
      → IsSafe n
      → IsSafe (final (start library cancelled root n))
  unfolding start
  start-IsSafe cancelled root n s = ground (arith, s)

  add-IsSafe : (path : Str) (n : Native V E) → IsSafe n → IsSafe (final (add library path n))
  unfolding add
  add-IsSafe path n s = ground (arith, s)

  remove-IsSafe : (path : Str) (n : Native V E) → IsSafe n → IsSafe (final (remove library path n))
  unfolding remove
  remove-IsSafe path n s = ground (arith, s)

  begin_close-IsSafe : (n : Native V E) → IsSafe n → IsSafe (begin_close library n)
  unfolding begin_close close_native
  begin_close-IsSafe n s = ground (arith, s)

  end_close-IsSafe : (n : Native V E) → IsSafe n → IsSafe (end_close library n)
  unfolding end_close
  end_close-IsSafe n s = ground (arith, s)

  pump_end-IsSafe : (n : Native V E) → n.pumping ≡ true → IsSafe n → IsSafe (pump_end library n)
  unfolding pump_end close_native
  pump_end-IsSafe n p s = ground (arith, s)

  send_error-IsSafe :
      (e : NativeError E) (n : Native V E)
      → n.pumping ≡ true
      → IsSafe n
      → IsSafe (send_error library e n)
  unfolding send_error
  send_error-IsSafe e n p s = ground (arith, s, length-append n.errors (e ∷ []))

  pump_event-IsSafe :
      (name : Str) (op : NativeOp) (n : Native V E)
      → n.pumping ≡ true
      → IsSafe n
      → IsSafe (pump_event library name op n)
  unfolding pump_event send_error
  pump_event-IsSafe name op n p s = ground (
    arith,
    s,
    length-append n.errors (queue_overflow ∷ []),
    length-append n.events (record { path = clean name; op = map_op op } ∷ []),
  )

  step-IsSafe : (x : Step E) (n : Native V E) → IsSafe n → IsSafe (step library x n)
  step-IsSafe (starts cancelled root) n s = start-IsSafe cancelled root n s
  step-IsSafe (adds path) n s = add-IsSafe path n s
  step-IsSafe (removes path) n s = remove-IsSafe path n s
  step-IsSafe begins_close n s = begin_close-IsSafe n s
  step-IsSafe ends_close n s = end_close-IsSafe n s
  step-IsSafe (pumps_event name op) n s =
      while_pumping n.pumping (pump_event library name op n) n
        (λ p. pump_event-IsSafe name op n p s) s
  step-IsSafe (pumps_error e) n s =
      while_pumping n.pumping (pump_error library e n) n
        (λ p. unfold pump_error in send_error-IsSafe _ n p s) s
  step-IsSafe pump_ends n s =
      while_pumping n.pumping (pump_end library n) n (λ p. pump_end-IsSafe n p s) s
  step-IsSafe takes_event n (calm, event_room, error_room, ended, used, begun) =
      (calm, shorter n.events event_room, error_room, ended, used, begun)
  step-IsSafe takes_error n (calm, event_room, error_room, ended, used, begun) =
      (calm, event_room, shorter n.errors error_room, ended, used, begun)

  new-IsSafe : (buffer : ℕ) → IsSafe (new {V = V} {E = E} buffer)
  unfolding new
  new-IsSafe buffer = (refl, omega arith, omega arith, refl, refl, refl)

  run_steps-IsSafe :
      (steps : List (Step E)) (n : Native V E) → IsSafe n → IsSafe (run_steps library steps n)
  unfolding run_steps
  run_steps-IsSafe [] n s = s
  run_steps-IsSafe (x ∷ steps) n s = run_steps-IsSafe steps (step library x n) (step-IsSafe x n s)

  -- In every interleaving of the calls of a native watcher's methods with the turns of its pump,
  -- from a new watcher on: nothing is sent on a closed channel, neither channel holds more than its
  -- capacity, and once the channels are closed the pump has ended and is not started again.
  pub run_steps-new :
      (buffer : ℕ) (steps : List (Step E)) → IsSafe (run_steps library steps (new buffer))
  run_steps-new buffer steps = run_steps-IsSafe steps (new buffer) (new-IsSafe buffer)
