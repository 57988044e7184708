-- ===== src/Scrub/Delivered.antt =====
-- integrity.go: what the sink is offered by a scrub, and what stays pending.
use fsrecon.Prelude.{◌≡◌, none, some, Result, ok, err}
use fsrecon.Delivery.{DeliveryError}
use fsrecon.Config.{Config}
use fsrecon.Reconcile.{Tracker}
use fsrecon.Scrub.{delivery_failed, Scan}
use fsrecon.Scrub.Generation.{ScrubReply, keep_pending}

-- How a scrub's delivery ends, from the sink's answers to its batches.
abbrev pub IsDelivered :
    {W B E : Type 0} → Scan W → Tracker W B → Result (DeliveryError E) W → ScrubReply W B E → Type 0
IsDelivered s t (ok w) reply =
    (reply.error ≡ none)
    × (reply.tracker.world ≡ w)
    × (reply.tracker.pending ≡ t.pending)
    × (reply.tracker.generation ≡ s.report.generation)
IsDelivered s t (err e w) reply =
    (reply.error ≡ some (delivery_failed e))
    × (reply.tracker.world ≡ w)
    × (reply.tracker.pending ≡ (keep_pending s t).pending)
    × (reply.tracker.generation ≡ t.generation)
