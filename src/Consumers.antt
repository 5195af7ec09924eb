-- ===== src/Consumers.antt =====
-- src/core/consumers.ts: the subscription that hands events to an async iterator one at a time. A
-- promise is an entry of the state: what was handed out, and which deliveries were resolved or rejected.
pub mod Settling
mod Handover
mod Handler
mod Examples
use watukuy.Base.{
  ℕ, ◌+◌, Bool, true, false, Option, none, some, List, [], ◌∷◌, ◌++◌, map, if◌then◌else◌, ◌||◌,
  is_some,
}
use watukuy.Types.{WatukuyEvent}

-- A call of `deliver` that waits for its outcome; `ticket` tells two deliveries of one event apart.
pub record Pending : Type 0 where
  pub ticket : ℕ
  pub event : WatukuyEvent

pub data Outcome : Type 0 where
  acknowledged rejected : Outcome

-- `puller` is whether a call of `next` waits. The last three fields are what the callers have seen so
-- far, oldest first: events handed out, deliveries settled, and calls of `next` told `done`.
pub record SubscribeConsumer : Type 0 where
  pub puller : Bool
  pub inflight : Option Pending
  pub queue : List Pending
  pub closed : Bool
  pub handed : List Pending
  pub settled : List (Pending × Outcome)
  pub ended : ℕ

abbrev pub open_consumer : SubscribeConsumer
open_consumer = record {
  puller = false;
  inflight = none;
  queue = [];
  closed = false;
  handed = [];
  settled = [];
  ended = 0;
}

unfoldable pub pump_queue : SubscribeConsumer → List Pending → SubscribeConsumer
pump_queue s [] = s
pump_queue s (p ∷ queue) = record s {
  puller = false;
  inflight = some p;
  queue = queue;
  handed = s.handed ++ (p ∷ []);
}

unfoldable pub pump : SubscribeConsumer → SubscribeConsumer
unfolding pump_queue
pump s = if s.puller then (if is_some s.inflight then s else pump_queue s s.queue) else s

abbrev pub settle_pending : Outcome → Option Pending → SubscribeConsumer → SubscribeConsumer
settle_pending o none s = s
settle_pending o (some p) s = record s { inflight = none; settled = s.settled ++ ((p, o) ∷ []) }

unfoldable pub settle_inflight : Outcome → SubscribeConsumer → SubscribeConsumer
settle_inflight o s = settle_pending o s.inflight s

unfoldable pub deliver : Pending → SubscribeConsumer → SubscribeConsumer
unfolding pump
deliver p s =
    if s.closed
    then record s { settled = s.settled ++ ((p, rejected) ∷ []) }
    else pump (record s { queue = s.queue ++ (p ∷ []) })

abbrev pub reject_all : List Pending → List (Pending × Outcome)
reject_all [] = []
reject_all (p ∷ ps) = (p, rejected) ∷ reject_all ps

-- The rest of `close`, once the event in flight is settled.
abbrev pub drop_queue : SubscribeConsumer → SubscribeConsumer
drop_queue s = record s {
  closed = true;
  settled = s.settled ++ reject_all s.queue;
  queue = [];
  puller = false;
  ended = if s.puller then s.ended + 1 else s.ended;
}

unfoldable pub close : SubscribeConsumer → SubscribeConsumer
unfolding settle_inflight
close s = if s.closed then s else drop_queue (settle_inflight rejected s)

unfoldable pub next : SubscribeConsumer → SubscribeConsumer
unfolding settle_inflight pump
next s =
    let t = settle_inflight acknowledged s in
    if t.closed then record t { ended = t.ended + 1 } else pump (record t { puller = true })

-- `return` and `throw` of the iterator.
unfoldable pub return_loop : SubscribeConsumer → SubscribeConsumer
unfolding settle_inflight close
return_loop s = close (settle_inflight acknowledged s)

unfoldable pub throw_loop : SubscribeConsumer → SubscribeConsumer
unfolding settle_inflight close
throw_loop s = close (settle_inflight rejected s)

-- What can happen to a subscription.
pub data Call : Type 0 where
  delivers : Pending → Call
  pulls returns throws closes : Call

unfoldable pub step : Call → SubscribeConsumer → SubscribeConsumer
unfolding deliver next return_loop throw_loop close
step (delivers p) s = deliver p s
step pulls s = next s
step returns s = return_loop s
step throws s = throw_loop s
step closes s = close s

unfoldable pub run : List Call → SubscribeConsumer → SubscribeConsumer
unfolding step
run [] s = s
run (c ∷ calls) s = run calls (step c s)
