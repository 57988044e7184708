-- ===== src/Delivery/Batches.antt =====
-- delivery.go: which batches a sink is offered, whatever it answers.
use fsrecon.Prelude.{
  ℕ, ◌≤◌, ◌<◌, ◌≡◌, refl, ◌∙◌, ap, sym, Bool, true, false, Str, some, List, [], ◌∷◌, ◌++◌,
  append_assoc, append-nil, arith, length, length-append, ◌==◌, if◌then◌else◌, Result, ok, err,
  final, Bool-cases, inl, inr, Result-cases,
}
use fsrecon.Event.{Event, ChangeBatch}
use fsrecon.Delivery.{
  incr64, DeliveryError, Sink, Batcher, batch_of, new_change_batcher, flush, add, finish, add_all,
  deliver,
}

abbrev make_batch : Str → ℕ → ℕ → Bool → List Event → ChangeBatch
make_batch session generation n last events = record {
  session_id = session;
  generation = generation;
  sequence = n;
  final = last;
  events = events;
}

-- The batches of a generation, from sequence `n` on, when `pending` waits already.
unfoldable pub cut : Str → ℕ → ℕ → ℕ → List Event → List Event → List ChangeBatch
cut session generation limit n pending [] =
    if length pending == 0 then [] else make_batch session generation n true pending ∷ []
cut session generation limit n pending (event ∷ events) =
    let full =
      make_batch session generation n false pending
      ∷ cut session generation limit (incr64 n) (event ∷ []) events in
    let more = cut session generation limit n (pending ++ event ∷ []) events in
    elim (length pending == limit) [ true ↦ full | false ↦ more ]

-- Offer batches to a sink one by one, up to the first that it refuses.
module _ {E W : Type 0} where
  -- A batch's answer, with the batch named in the error.
  unfoldable pub offer : Sink E W → List ChangeBatch → W → Result (DeliveryError E) W
  offer sink [] w = ok w
  offer sink (b ∷ bs) w = elim (sink b w) [
    | err e w' ↦ err (record { generation = b.generation; sequence = b.sequence; cause = e }) w'
    | ok w' ↦ offer sink bs w'
  ]

  abbrev pub world_of : Result (DeliveryError E) (Batcher W) → Result (DeliveryError E) W
  world_of (ok b) = ok b.world
  world_of (err e b) = err e b.world

  -- Delivery offers the sink the batches of `cut`, in order, up to the first that it refuses, and
  -- an error names the refused batch.
  pub deliver-offer :
      (sink : Sink E W) (events : List Event) (b : Batcher W)
      → world_of (deliver (some sink) events b)
        ≡ offer sink (cut b.session_id b.generation b.limit b.sequence b.pending events) b.world
  unfolding deliver add_all add finish flush cut offer
  deliver-offer sink [] b = ground arith
  deliver-offer sink (event ∷ events) b = elim (Bool-cases (length b.pending == b.limit)) [
    | inl full ↦ elim (Result-cases (sink (batch_of b false) b.world)) [
      | inl (w, e) ↦ ground (
        arith,
        deliver-offer sink events
            (record b { sequence = incr64 b.sequence; pending = event ∷ []; world = w }),
      )
      | inr (x, w, e) ↦ ground arith
    ]
    | inr room ↦
        ground (arith, deliver-offer sink events (record b { pending = b.pending ++ event ∷ [] }))
  ]

abbrev pub payload : List ChangeBatch → List Event
payload [] = []
payload (b ∷ bs) = b.events ++ payload bs

-- All of one session and generation, with sequence numbers that count up from `n`.
abbrev pub IsNumbered : Str → ℕ → ℕ → List ChangeBatch → Type 0
IsNumbered session generation n [] = Unit {0}
IsNumbered session generation n (b ∷ bs) =
    (b.session_id ≡ session)
    × (b.generation ≡ generation)
    × (b.sequence ≡ n)
    × IsNumbered session generation (incr64 n) bs

abbrev IsSizedBefore : ℕ → ChangeBatch → List ChangeBatch → Type 0
IsSizedBefore limit b [] = (b.final ≡ true) × (0 < length b.events) × (length b.events ≤ limit)
IsSizedBefore limit b (c ∷ bs) = (b.final ≡ false) × (length b.events ≡ limit)

-- The last batch alone is final, it holds between one and `limit` events, and all others are full.
abbrev pub IsSized : ℕ → List ChangeBatch → Type 0
IsSized limit [] = Unit {0}
IsSized limit (b ∷ bs) = IsSizedBefore limit b bs × IsSized limit bs

cut-nonempty :
    (session : Str) (generation limit n : ℕ) (pending events : List Event)
    → 0 < length pending
    → (b : ChangeBatch) × (bs : List ChangeBatch) × (cut session generation limit n pending events
        ≡ b ∷ bs)
unfolding cut
cut-nonempty session generation limit n pending [] h =
    (make_batch session generation n true pending, [], ground arith)
cut-nonempty session generation limit n pending (event ∷ events) h =
    elim (Bool-cases (length pending == limit)) [
      | inl full ↦ (
        make_batch session generation n false pending,
        cut session generation limit (incr64 n) (event ∷ []) events,
        rw (full, cut) refl,
      )
      | inr room ↦
          let (b, bs, e) =
            cut-nonempty session generation limit n (pending ++ event ∷ []) events
              (omega (arith, length-append pending (event ∷ []))) in
          (b, bs, rw (room, cut) e)
    ]

module _ (session : Str) (generation limit : ℕ) where
  payload-cut :
      (n : ℕ) (pending events : List Event)
      → payload (cut session generation limit n pending events) ≡ pending ++ events
  unfolding cut
  payload-cut n [] [] = refl
  payload-cut n (p ∷ ps) [] = ground arith
  payload-cut n pending (event ∷ events) = elim (Bool-cases (length pending == limit)) [
    | inl full ↦ rw (full, cut) (ap (◌++◌ pending) (payload-cut (incr64 n) (event ∷ []) events))
    | inr room ↦
        rw (room, cut)
          (payload-cut n (pending ++ event ∷ []) events ∙ append_assoc pending (event ∷ []) events)
  ]

  cut-IsNumbered :
      (n : ℕ) (pending events : List Event)
      → IsNumbered session generation n (cut session generation limit n pending events)
  unfolding cut
  cut-IsNumbered n pending [] = ground arith
  cut-IsNumbered n pending (event ∷ events) = elim (Bool-cases (length pending == limit)) [
    | inl full ↦ rw (full, cut) (refl, refl, refl, cut-IsNumbered (incr64 n) (event ∷ []) events)
    | inr room ↦ rw (room, cut) (cut-IsNumbered n (pending ++ event ∷ []) events)
  ]

  cut-IsSized :
      (n : ℕ) (pending events : List Event)
      → 0 < limit
      → length pending ≤ limit
      → IsSized limit (cut session generation limit n pending events)
  unfolding cut
  cut-IsSized n pending [] h k = ground arith
  cut-IsSized n pending (event ∷ events) h k = elim (Bool-cases (length pending == limit)) [
    | inl full ↦
        let rest = cut-IsSized (incr64 n) (event ∷ []) events h (omega arith) in
        let (b, bs, e) =
          cut-nonempty session generation limit (incr64 n) (event ∷ []) events (omega arith) in
        rw (full, cut) (rw e (refl, ground arith), rest)
    | inr room ↦
        rw (room, cut)
          (cut-IsSized n (pending ++ event ∷ []) events h
            (ground (arith, length-append pending (event ∷ []))))
  ]

-- A sink that takes every batch and keeps it.
abbrev pub keep_batches : Sink ⊥ (List ChangeBatch)
keep_batches b taken = ok (taken ++ b ∷ [])

offer-keep_batches : (bs taken : List ChangeBatch) → offer keep_batches bs taken ≡ ok (taken ++ bs)
unfolding offer
offer-keep_batches [] taken = ap ok (sym (append-nil taken))
offer-keep_batches (b ∷ bs) taken =
    offer-keep_batches bs (taken ++ b ∷ []) ∙ ap ok (append_assoc taken (b ∷ []) bs)

abbrev pub delivered : Str → ℕ → ℕ → List Event → List ChangeBatch
delivered session generation limit events =
    (final
      (deliver (some keep_batches) events (new_change_batcher session generation limit []))).world

world_of-ok :
    {E W : Type 0} (r : Result (DeliveryError E) (Batcher W)) {w : W}
    → world_of r ≡ ok w
    → (final r).world ≡ w
world_of-ok (ok b) h = cc
world_of-ok (err e b) h = cc

delivered-cut :
    (session : Str) (generation limit : ℕ) (events : List Event)
    → delivered session generation limit events ≡ cut session generation limit 0 [] events
delivered-cut session generation limit events =
    world_of-ok
      (deliver (some keep_batches) events (new_change_batcher session generation limit []))
      (deliver-offer keep_batches events (new_change_batcher session generation limit [])
        ∙ offer-keep_batches (cut session generation limit 0 [] events) [])

-- The batches of a generation together hold its events, in order and each once; they carry the
-- session, the generation and the sequence numbers from 0 up; only the last is final; none is
-- empty, and all but the last are full.
pub delivered_whole :
    (session : Str) (generation limit : ℕ) (events : List Event)
    → 0 < limit
    → let bs = delivered session generation limit events in
      (payload bs ≡ events) × IsNumbered session generation 0 bs × IsSized limit bs
delivered_whole session generation limit events h =
    rw (delivered-cut session generation limit events) (
      payload-cut session generation limit 0 [] events,
      cut-IsNumbered session generation limit 0 [] events,
      cut-IsSized session generation limit 0 [] events h (omega arith),
    )
