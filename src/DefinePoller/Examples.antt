-- ===== src/DefinePoller/Examples.antt =====
-- Configurations of src/core/define-poller.ts.
use watukuy.Base.{ℕ, false, Option, none, some, String, ◌≡◌, refl, arith, string_eq, is_some, ◌&&◌}
use watukuy.Base.Rounding.{round_div}
use watukuy.Types.{ResolvedPoller, Result, ok, err}
use watukuy.Types.Samples.{id_field, orders_poller}
use watukuy.Duration.{written, parse_duration}
use watukuy.DefinePoller.{
  PollerConfig, CursorConfig, token_cursor, snapshot_diff, resolve_poller, is_snapshot_diff,
}
use watukuy.DefinePoller.Sound.{IsSound, resolve_poller-IsSound}

abbrev orders : CursorConfig → String → PollerConfig
orders cursor name = record {
  name = name;
  identity = id_field;
  version = none;
  fingerprint = none;
  schema_version = none;
  cursor = cursor;
  schedule = none;
  budget_weight = none;
  budget_cost = none;
  partitions_refresh = none;
  delivery = record {
    ordering_key = none;
    concurrency = none;
    attempts = none;
    backoff = none;
    poison_action = none;
    hold_key = none;
    manual_ack = none;
  };
  retain = none;
  reconcile_every = some (written "1d");
  on_invalid = none;
  on_schema_change = none;
  max_pages_per_cycle = none;
  circuit_failures = none;
  probe_every = none;
  log_retention = none;
  source = none;
}

abbrev summary : Result ResolvedPoller → Option (String × ℕ × ℕ × Option ℕ × ℕ)
summary (ok r) = some (
  r.source, r.schedule.min_ms, r.delivery.retry_backoff.max_ms, r.reconcile_every_ms,
  r.circuit.probe_every_ms,
)
summary (err _) = none

defaults_applied :
    summary (resolve_poller (orders token_cursor "orders"))
    ≡ some ("urn:watukuy:orders", 30_000, 120_000, some 86_400_000, 300_000)
unfolding resolve_poller parse_duration round_div
defaults_applied = refl

name_refused : summary (resolve_poller (orders token_cursor ".orders")) ≡ none
unfolding resolve_poller
name_refused = refl

reconcile_refused : summary (resolve_poller (orders snapshot_diff "orders")) ≡ none
unfolding resolve_poller parse_duration round_div
reconcile_refused = refl

abbrev resolved_of : Result ResolvedPoller → ResolvedPoller
resolved_of (ok r) = r
resolved_of (err _) = orders_poller

resolve_poller-IsSound_example :
    IsSound (resolved_of (resolve_poller (orders token_cursor "orders")))
    × ((is_some (some (written "1d")) && is_snapshot_diff token_cursor) ≡ false)
unfolding resolve_poller parse_duration round_div
resolve_poller-IsSound_example =
    resolve_poller-IsSound (orders token_cursor "orders")
      (resolved_of (resolve_poller (orders token_cursor "orders"))) refl (omega arith) (omega arith)
