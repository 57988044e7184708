-- ===== src/Examples/Delivery.antt =====
-- delivery.go with three events in batches of two.
use fsrecon.Prelude.{◌≡◌, refl, ℕ, bytes, none, some, List, [], ◌∷◌, ok, err, arith}
use fsrecon.Event.{Event, event_created, source_reconcile, ChangeBatch}
use fsrecon.Delivery.{deliver, new_change_batcher, Sink, add, finish, add_all, flush}
use fsrecon.Delivery.Batches.{
  deliver-offer, delivered_whole, delivered, payload, world_of, offer, cut, IsNumbered, IsSized,
}

abbrev event : ℕ → Event
event n = record {
  kind = event_created;
  path = n ∷ [];
  old_path = [];
  before = none;
  after = none;
  source = source_reconcile;
}

abbrev three : List Event
three = event 1 ∷ event 2 ∷ event 3 ∷ []

two_batches : payload (delivered (bytes "s") 7 2 three) ≡ three
unfolding deliver add_all add finish flush
two_batches = refl

delivered_whole_example :
    let bs = delivered (bytes "s") 7 2 three in
    (payload bs ≡ three) × IsNumbered (bytes "s") 7 0 bs × IsSized 2 bs
delivered_whole_example = delivered_whole (bytes "s") 7 2 three (omega arith)

-- A sink that refuses every batch but the first.
abbrev once : Sink ℕ (List ChangeBatch)
once b [] = ok (b ∷ [])
once b (c ∷ cs) = err 13 (c ∷ cs)

deliver-offer_example :
    world_of (deliver (some once) three (new_change_batcher (bytes "s") 7 2 []))
    ≡ offer once (cut (bytes "s") 7 2 0 [] three) []
deliver-offer_example = deliver-offer once three (new_change_batcher (bytes "s") 7 2 [])
