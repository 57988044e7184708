-- ===== src/Delivery.antt =====
-- delivery.go: the batcher that cuts the events of a generation into numbered batches for a
-- `ChangeSink`. A sink is a step on a state `W` of its own that may fail; its context is left out.
pub mod Batches
use fsrecon.Prelude.{
  ℕ, ◌+◌, ◌%◌, ◌^◌, Bool, true, false, Str, Option, none, some, List, [], ◌∷◌, ◌++◌, length, ◌==◌,
  if◌then◌else◌, Result, ok, err, ◌>>=◌,
}
use fsrecon.Event.{Event, ChangeBatch}

-- `x++` on a `uint64`
abbrev pub incr64 : ℕ → ℕ
incr64 n = (n + 1) % 2 ^ 64

-- `fmt.Errorf("fsrecon: deliver generation %d batch %d: %w", …)`
pub record DeliveryError (E : Type 0) : Type 0 where
  pub generation : ℕ
  pub sequence : ℕ
  pub cause : E

abbrev pub Sink : Type 0 → Type 0 → Type 0
Sink E W = ChangeBatch → W → Result E W

-- `changeBatcher`, with the state of the sink that it calls.
pub record Batcher (W : Type 0) : Type 0 where
  pub session_id : Str
  pub generation : ℕ
  pub sequence : ℕ
  pub limit : ℕ
  pub pending : List Event
  pub world : W

abbrev pub new_change_batcher : {W : Type 0} → Str → ℕ → ℕ → W → Batcher W
new_change_batcher session_id generation limit w = record {
  session_id = session_id;
  generation = generation;
  sequence = 0;
  limit = limit;
  pending = [];
  world = w;
}

abbrev pub batch_of : {W : Type 0} → Batcher W → Bool → ChangeBatch
batch_of b final = record {
  session_id = b.session_id;
  generation = b.generation;
  sequence = b.sequence;
  final = final;
  events = b.pending;
}

module _ {E W : Type 0} where
  unfoldable pub flush : Sink E W → Bool → Batcher W → Result (DeliveryError E) (Batcher W)
  flush sink final b = elim (sink (batch_of b final) b.world) [
    | err e w ↦
        err (record { generation = b.generation; sequence = b.sequence; cause = e })
          (record b { world = w })
    | ok w ↦ ok (record b { sequence = incr64 b.sequence; pending = []; world = w })
  ]

  abbrev pub append_pending : Event → Batcher W → Result (DeliveryError E) (Batcher W)
  append_pending event b = ok (record b { pending = b.pending ++ event ∷ [] })

  unfoldable pub add : Option (Sink E W) → Event → Batcher W → Result (DeliveryError E) (Batcher W)
  unfolding flush
  add none event b = ok b
  add (some sink) event b =
      (if length b.pending == b.limit then flush sink false b else ok b) >>= append_pending event

  unfoldable pub finish : Option (Sink E W) → Batcher W → Result (DeliveryError E) (Batcher W)
  unfolding flush
  finish none b = ok b
  finish (some sink) b = if length b.pending == 0 then ok b else flush sink true b

  -- The loop over the events in `deliverPending`.
  unfoldable pub add_all :
      Option (Sink E W) → List Event → Batcher W → Result (DeliveryError E) (Batcher W)
  add_all sink [] b = ok b
  add_all sink (event ∷ events) b = add sink event b >>= add_all sink events

  -- `Add` for each event, then `Finish`.
  unfoldable pub deliver :
      Option (Sink E W) → List Event → Batcher W → Result (DeliveryError E) (Batcher W)
  deliver sink events b = add_all sink events b >>= finish sink
