-- ===== src/Consumers/Handler.antt =====
-- src/core/consumers.ts: the consumer that calls a handler. The handler answers for the user's code: its
-- result, whether it has called `ctx.ack()`, and the world after it.
use watukuy.Base.{Bool, true, false, not, ◌&&◌, ◌≡◌, refl, if◌then◌else◌}
use watukuy.Types.{WatukuyEvent, Result, ok, err, Error, handler}
use watukuy.Types.Samples.{first_event}
use Prim.Native.String.{◌++◌}

abbrev pub Handler : Type 0 → Type 0
Handler W = WatukuyEvent → W → Result (Unit {0}) × Bool × W

abbrev unacknowledged : WatukuyEvent → Error
unacknowledged event = handler (
    "handler returned without calling ctx.ack() for event "
    ++ (event.id ++ " (delivery.ackMode is 'manual')"))

-- A handler that returned, with the mark of its acknowledgement.
abbrev returned : Bool → Bool → WatukuyEvent → Result (Unit {0})
returned manual acked event = if manual && not acked then err (unacknowledged event) else ok tt

unfoldable pub deliver_to :
    {W : Type 0} → Handler W → Bool → WatukuyEvent → W → Result (Unit {0}) × W
deliver_to {W} call manual event w = settled (call event w)
  where
    settled : Result (Unit {0}) × Bool × W → Result (Unit {0}) × W
    settled (err thrown, acked, after) = (err thrown, after)
    settled (ok _, acked, after) = (returned manual acked event, after)

-- A handler that forgets to acknowledge is refused where acknowledgement is manual, and only there.
forgets_refused :
    (deliver_to (λ e w. (ok tt, false, w)) true first_event tt
      ≡ (err (unacknowledged first_event), tt))
    × (deliver_to (λ e w. (ok tt, false, w)) false first_event tt ≡ (ok tt, tt))
unfolding deliver_to
forgets_refused = (refl, refl)
