-- ===== src/Runner/Halt.antt =====
-- The schedule that src/core/runner.ts writes when a poison event halts a poller.
use watukuy.Base.{ℕ, ◌+◌, max, none, some, []}
use watukuy.Types.{ScheduleState, Circuit, SerializedError, opened}

abbrev pub poison_halt : SerializedError
poison_halt = record {
  frame = record {
    name = "PoisonHalt";
    message = "poison event with action \"halt\"; circuit opened";
    code = none;
    status = none;
  };
  causes = [];
}

-- openCircuitForHalt, the new schedule
unfoldable pub halt_schedule : ScheduleState → Circuit → ℕ → ScheduleState
halt_schedule s circuit now = record s {
  circuit = opened;
  circuit_opened_at = some now;
  next_due_at = some (now + circuit.probe_every_ms);
  consecutive_failures = max s.consecutive_failures circuit.failures;
  last_error = some poison_halt;
}
