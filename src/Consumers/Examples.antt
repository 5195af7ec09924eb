-- ===== src/Consumers/Examples.antt =====
-- The theorem on src/core/consumers.ts at a concrete history.
use watukuy.Base.{ℕ, none, List, [], ◌∷◌, ◌≡◌, refl}
use watukuy.Types.{WatukuyEvent, created, live, null}
use watukuy.Consumers.{
  Pending, acknowledged, rejected, open_consumer, Call, delivers, pulls, closes, run, pump,
}

abbrev event : WatukuyEvent
event = record {
  id = "e1";
  type = created;
  source = "urn:watukuy:orders";
  subject = "o1";
  time = 10;
  poller = "orders";
  partition = "";
  lane = live;
  sequence = 1;
  cursor = null;
  payload = none;
  previous = none;
  attempt = 0;
}

abbrev ticket : ℕ → Pending
ticket n = record { ticket = n; event = event }

-- The loop takes two events and the signal aborts while the second is in flight.
abbrev history : List Call
history =
    pulls
    ∷ delivers (ticket 1)
    ∷ delivers (ticket 2)
    ∷ pulls
    ∷ delivers (ticket 3)
    ∷ closes
    ∷ delivers (ticket 4)
    ∷ []

outcomes :
    (run history open_consumer).settled
    ≡ (ticket 1, acknowledged)
      ∷ (ticket 2, rejected)
      ∷ (ticket 3, rejected)
      ∷ (ticket 4, rejected)
      ∷ []
unfolding run pump
outcomes = refl
