-- ===== src/LeaseKeeper/Examples.antt =====
-- The theorem on src/core/lease-keeper.ts at a concrete history.
use watukuy.Base.{refl}
use watukuy.LeaseKeeper.{LeaseKeeper, new_keeper, renewed, refused, start, beat, answer, schedule}
use watukuy.LeaseKeeper.Heartbeat.{started, later, fires, answers, IsHeartbeat, Reach-IsHeartbeat}

-- A beat is renewed, the next one is refused.
abbrev last : LeaseKeeper
last =
    answer 30_000 20_000 refused
      (beat (answer 30_000 10_000 renewed (beat (start (new_keeper 30_000)))))

Reach-IsHeartbeat_example : IsHeartbeat last
unfolding start schedule beat answer
Reach-IsHeartbeat_example = Reach-IsHeartbeat 30_000 30_000 last (
    later (later (later (later started (fires refl)) (answers 10_000 renewed refl)) (fires refl))
      (answers 20_000 refused refl))
