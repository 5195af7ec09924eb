-- ===== src/Consumers/Handover.antt =====
-- src/core/consumers.ts: deliveries are settled once and in order, and acknowledged only after they
-- were handed out.
use watukuy.Base.{List, [], ◌∷◌, ◌++◌, if◌then◌else◌}
use watukuy.Consumers.{
  Pending, Outcome, acknowledged, rejected, SubscribeConsumer, Call, delivers, pulls, returns,
  throws, closes,
}
use watukuy.Consumers.Settling.{in_flight}

-- The deliveries that a history asks for.
abbrev pub asked : List Call → List Pending
asked [] = []
asked (delivers p ∷ calls) = p ∷ asked calls
asked (pulls ∷ calls) = asked calls
asked (returns ∷ calls) = asked calls
asked (throws ∷ calls) = asked calls
asked (closes ∷ calls) = asked calls

abbrev pub answered : Outcome → List Pending → List (Pending × Outcome)
answered o [] = []
answered o (p ∷ ps) = (p, o) ∷ answered o ps

-- The deliveries that a call settles, and how: only asking for the next event, and leaving the loop
-- early, acknowledge the one in flight; an error of the loop and a close reject it.
abbrev pub settles : Call → SubscribeConsumer → List (Pending × Outcome)
settles (delivers p) s = if s.closed then (p, rejected) ∷ [] else []
settles pulls s = answered acknowledged (in_flight s.inflight)
settles returns s = answered acknowledged (in_flight s.inflight) ++ answered rejected s.queue
settles throws s = answered rejected (in_flight s.inflight) ++ answered rejected s.queue
settles closes s = answered rejected (in_flight s.inflight) ++ answered rejected s.queue
