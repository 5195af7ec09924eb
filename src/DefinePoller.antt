-- ===== src/DefinePoller.antt =====
-- src/core/define-poller.ts: the configuration of a poller, checked, and with its defaults. That a
-- field is a function, a string or an object is left to the types. Fractions are exact.
mod Sound
mod Examples
use watukuy.Base.{
  ℕ, zero, suc, Bool, true, false, not, ◌&&◌, ◌||◌, String, string_eq, Option, none, some, or_else,
  ltb, leb, nat_eqb, ◌==◌, is_some, if◌then◌else◌,
}
use watukuy.Types.{
  Value, Number, nat, neg, Ratio, Backoff, Schedule, Circuit, PoisonAction, park, Delivery, Retain,
  hash_only, OnInvalid, quarantine, OnSchemaChange, rebaseline, ResolvedPoller, WatukuyEvent,
  Result, ok, err, config, ◌>>=◌,
}
use watukuy.Duration.{Duration, written, parse_duration}
use watukuy.Base.Decimal.{is_digit}
use watukuy.Diff.Canonicalize.{json_string}
use Prim.Native.Char.{Char, code}
use Prim.Native.String.{◌++◌, count}

-- A number of the configuration that may have a fraction.
pub data Quantity : Type 0 where
  exact : Ratio → Quantity
  negative : Quantity
  not_a_number : Quantity

pub record BackoffConfig : Type 0 where
  pub base : Option Duration
  pub factor : Option Quantity
  pub max : Option Duration

pub record ScheduleConfig : Type 0 where
  pub min : Duration
  pub max : Duration
  pub adaptive : Option Bool
  pub jitter : Option Quantity
  pub backoff : Option BackoffConfig

-- `delivery`, with `retry` and `poison` in it
pub record DeliveryConfig : Type 0 where
  pub ordering_key : Option (WatukuyEvent → String)
  pub concurrency : Option Number
  pub attempts : Option Number
  pub backoff : Option BackoffConfig
  pub poison_action : Option PoisonAction
  pub hold_key : Option Bool
  pub manual_ack : Option Bool

-- What is checked of a cursor.
pub data CursorConfig : Type 0 where
  timestamp_cursor : (field : String) → (lag overlap : Option Duration) → CursorConfig
  token_cursor : CursorConfig
  page_cursor : Option Number → CursorConfig
  snapshot_diff : CursorConfig
  custom_cursor : CursorConfig

pub record PollerConfig : Type 0 where
  pub name : String
  pub identity : Value → Value
  pub version : Option (Value → String)
  pub fingerprint : Option (Value → Value)
  pub schema_version : Option Number
  pub cursor : CursorConfig
  pub schedule : Option ScheduleConfig
  pub budget_weight : Option Quantity
  pub budget_cost : Option Quantity
  pub partitions_refresh : Option Duration
  pub delivery : DeliveryConfig
  pub retain : Option Retain
  pub reconcile_every : Option Duration
  pub on_invalid : Option OnInvalid
  pub on_schema_change : Option OnSchemaChange
  pub max_pages_per_cycle : Option Number
  pub circuit_failures : Option Number
  pub probe_every : Option Duration
  pub log_retention : Option Duration
  pub source : Option String

-- `if (!test) throw new ConfigError(message)`
abbrev pub ensure : Bool → String → Result (Unit {0})
ensure true message = ok tt
ensure false message = err (config message)

-- `Number.isInteger(n) && n >= 1`
unfoldable pub count_of : String → Number → Result ℕ
count_of message (nat (suc n)) = ok (suc n)
count_of message n = err (config message)

abbrev is_letter : Char → Bool
is_letter c = (leb b'a' (code c) && leb (code c) b'z') || (leb b'A' (code c) && leb (code c) b'Z')

abbrev is_alphanumeric : Char → Bool
is_alphanumeric c = is_letter c || is_digit c

abbrev is_name_char : Char → Bool
is_name_char c =
    is_alphanumeric c || nat_eqb (code c) b'.' || nat_eqb (code c) b'_' || nat_eqb (code c) b'-'

abbrev pub all_name_chars : String → Bool
all_name_chars String.[] = true
all_name_chars (String.◌∷◌ c s) = is_name_char c && all_name_chars s

-- NAME_RE
unfoldable pub is_name : String → Bool
is_name String.[] = false
is_name (String.◌∷◌ c s) = is_alphanumeric c && (leb (count s) 127 && all_name_chars s)

abbrev pub said : String → String → String
said name text = "poller '" ++ (name ++ ("'" ++ text))

-- `factor >= 1`
unfoldable pub factor_of : String → Quantity → Result Ratio
factor_of label (exact r) =
    if leb r.den r.num then ok r else err (config (label ++ ".backoff.factor must be >= 1"))
factor_of label _ = err (config (label ++ ".backoff.factor must be >= 1"))

-- `jitter >= 0 && jitter < 1`
unfoldable pub jitter_of : String → Quantity → Result Ratio
jitter_of name (exact r) =
    if ltb r.num r.den then ok r else err (config (said name ": schedule.jitter must be in [0, 1)"))
jitter_of name _ = err (config (said name ": schedule.jitter must be in [0, 1)"))

abbrev pub is_positive : Quantity → Bool
is_positive (exact r) = ltb 0 r.num
is_positive _ = false

abbrev pub is_nonnegative : Quantity → Bool
is_nonnegative (exact r) = true
is_nonnegative _ = false

abbrev pub no_backoff : BackoffConfig
no_backoff = record { base = none; factor = none; max = none }

-- `backoff`, with the longest wait of the defaults; the others have one default.
unfoldable pub backoff_of : Option BackoffConfig → Duration → String → Result Backoff
unfolding factor_of
backoff_of given longest label =
    let cfg = or_else given no_backoff in
    parse_duration (or_else cfg.base (written "1s")) (label ++ ".backoff.base") >>= λ base_ms.
    parse_duration (or_else cfg.max longest) (label ++ ".backoff.max") >>= λ max_ms.
    factor_of label (or_else cfg.factor (exact (record { num = 2; den = 1 }))) >>= λ factor.
    ensure (leb base_ms max_ms) (label ++ ".backoff.max must be >= base") >>= λ _.
    ok (record { base_ms = base_ms; factor = factor; max_ms = max_ms })

abbrev pub optional_duration : Option Duration → String → Result (Option ℕ)
optional_duration none label = ok none
optional_duration (some d) label = parse_duration d label >>= λ ms. ok (some ms)

unfoldable pub validate_cursor : CursorConfig → String → Result (Unit {0})
validate_cursor (timestamp_cursor field lag overlap) name =
    ensure (not (field == "")) (said name ": cursor.field is required for timestamp strategy")
    >>= λ _. optional_duration lag (said name " cursor.lag") >>= λ _.
        optional_duration overlap (said name " cursor.overlap") >>= λ _. ok tt
validate_cursor (page_cursor none) name = ok tt
validate_cursor (page_cursor (some (nat n))) name = ok tt
validate_cursor (page_cursor (some (neg zero))) name = ok tt
validate_cursor (page_cursor (some n)) name =
    err (config (said name ": cursor.initial must be a non-negative integer"))
validate_cursor _ name = ok tt

abbrev pub is_snapshot_diff : CursorConfig → Bool
is_snapshot_diff snapshot_diff = true
is_snapshot_diff _ = false

-- The checks that are over before the fields are put together, and what they read.
pub record Times : Type 0 where
  pub min_ms : ℕ
  pub max_ms : ℕ
  pub jitter : Ratio

pub record Counts : Type 0 where
  pub concurrency : ℕ
  pub attempts : ℕ
  pub schema_version : ℕ
  pub max_pages : ℕ
  pub failures : ℕ

abbrev pub default_schedule : ScheduleConfig
default_schedule = record {
  min = written "30s";
  max = written "5m";
  adaptive = none;
  jitter = none;
  backoff = none;
}

unfoldable pub times_of : String → ScheduleConfig → Result Times
unfolding jitter_of
times_of name schedule = parse_duration schedule.min (said name " schedule.min") >>= λ min_ms.
    parse_duration schedule.max (said name " schedule.max") >>= λ max_ms.
    ensure (ltb 0 min_ms) (said name ": schedule.min must be > 0") >>= λ _.
    ensure (leb min_ms max_ms) (said name ": schedule.max must be >= schedule.min") >>= λ _.
    jitter_of name (or_else schedule.jitter (exact (record { num = 1; den = 10 }))) >>= λ jitter.
    ok (record { min_ms = min_ms; max_ms = max_ms; jitter = jitter })

abbrev pub must : PollerConfig → String → String
must cfg field = said cfg.name (": " ++ (field ++ " must be an integer >= 1"))

unfoldable pub counts_of : PollerConfig → Result Counts
unfolding count_of
counts_of cfg =
    count_of (must cfg "delivery.concurrency") (or_else cfg.delivery.concurrency (nat 1))
    >>= λ concurrency.
        count_of (must cfg "delivery.retry.attempts") (or_else cfg.delivery.attempts (nat 5))
        >>= λ attempts.
            count_of (must cfg "schemaVersion") (or_else cfg.schema_version (nat 1))
            >>= λ schema_version.
                count_of (must cfg "maxPagesPerCycle") (or_else cfg.max_pages_per_cycle (nat 50))
                >>= λ max_pages.
                    count_of (must cfg "circuit.failures") (or_else cfg.circuit_failures (nat 5))
                    >>= λ failures. ok (record {
                      concurrency = concurrency;
                      attempts = attempts;
                      schema_version = schema_version;
                      max_pages = max_pages;
                      failures = failures;
                    })

-- The budget's share and price of a poller, and no reconcile lane beside a full scan.
unfoldable pub check_rest : PollerConfig → Result (Unit {0})
check_rest cfg =
    let one = exact (record { num = 1; den = 1 }) in
    ensure (is_positive (or_else cfg.budget_weight one))
      (said cfg.name ": budgetWeight must be > 0")
    >>= λ _.
        ensure (is_nonnegative (or_else cfg.budget_cost one))
          (said cfg.name ": budgetCost must be >= 0")
        >>= λ _. ensure (not (is_some cfg.reconcile_every && is_snapshot_diff cfg.cursor)) (
            said cfg.name ": reconcile is redundant with snapshotDiff (it already detects deletes)")

abbrev pub probe_of : String → Option Duration → ℕ → Result ℕ
probe_of name none max_ms = ok max_ms
probe_of name (some d) max_ms = parse_duration d (said name " circuit.probeEvery")

abbrev pub assembled :
    PollerConfig
    → ScheduleConfig
    → Times
    → Counts
    → Backoff
    → Backoff
    → Option ℕ
    → ℕ
    → Option ℕ
    → ResolvedPoller
assembled cfg schedule times counts schedule_backoff retry_backoff every probe retention = record {
  name = cfg.name;
  source = or_else cfg.source ("urn:watukuy:" ++ cfg.name);
  identity = cfg.identity;
  version = cfg.version;
  fingerprint = cfg.fingerprint;
  schema_version = counts.schema_version;
  schedule = record {
    min_ms = times.min_ms;
    max_ms = times.max_ms;
    adaptive = or_else schedule.adaptive true;
    jitter = times.jitter;
    backoff = schedule_backoff;
  };
  delivery = record {
    ordering_key = cfg.delivery.ordering_key;
    concurrency = counts.concurrency;
    retry_attempts = counts.attempts;
    retry_backoff = retry_backoff;
    poison_action = or_else cfg.delivery.poison_action park;
    poison_hold_key = or_else cfg.delivery.hold_key true;
    manual_ack = or_else cfg.delivery.manual_ack false;
  };
  retain = or_else cfg.retain hash_only;
  on_invalid = or_else cfg.on_invalid quarantine;
  on_schema_change = or_else cfg.on_schema_change rebaseline;
  reconcile_every_ms = every;
  max_pages_per_cycle = counts.max_pages;
  circuit = record { failures = counts.failures; probe_every_ms = probe };
  log_retention_ms = retention;
}

-- The fields that are read while the result is put together, in their order.
unfoldable pub assemble : PollerConfig → ScheduleConfig → Times → Counts → Result ResolvedPoller
unfolding backoff_of
assemble cfg schedule times counts =
    backoff_of schedule.backoff (written "10m") (said cfg.name " schedule") >>= λ schedule_backoff.
    parse_duration (or_else cfg.partitions_refresh (written "5m"))
      (said cfg.name " partitionsRefresh")
    >>= λ _.
        backoff_of cfg.delivery.backoff (written "2m") (said cfg.name " delivery.retry")
        >>= λ retry_backoff.
            optional_duration cfg.reconcile_every (said cfg.name " reconcile.every") >>= λ every.
            probe_of cfg.name cfg.probe_every times.max_ms >>= λ probe.
            optional_duration cfg.log_retention (said cfg.name " log.retention") >>= λ retention.
            ok (
              assembled cfg schedule times counts schedule_backoff retry_backoff every probe
                retention)

unfoldable pub resolve_poller : PollerConfig → Result ResolvedPoller
unfolding validate_cursor times_of counts_of check_rest assemble is_name
resolve_poller cfg =
    let schedule = or_else cfg.schedule default_schedule in
    ensure (is_name cfg.name) (
      "poller name must match /^[a-zA-Z0-9][a-zA-Z0-9._-]{0,127}$/ (letters, digits, '.', '_', '-'; max 128 chars), got "
      ++ json_string cfg.name)
    >>= λ _. validate_cursor cfg.cursor cfg.name >>= λ _. times_of cfg.name schedule >>= λ times.
        counts_of cfg >>= λ counts. check_rest cfg >>= λ _. assemble cfg schedule times counts
