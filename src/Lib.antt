-- ===== src/Lib.antt =====
-- watukuy turns a pull-only API into a stream of created, updated and deleted events. This library
-- models the parts of it that decide, and proves what makes them correct. Paths are from the root
-- of the repository.
--
-- The program. A runner polls each (poller, partition) key: it acquires a lease on the key from the
-- state store, drains the outbox, fetches pages, compares their items with the stored rows, and
-- commits cursor, rows and events in one fenced write; a dispatcher delivers the outbox to the
-- user's handler and acknowledges, retries or parks each event; a scheduler plans the next run; a
-- budget spaces the requests that pollers share.
--
-- Files and what they model. A definition is named after the function that it models.
--   Base       helpers: numbers, lists, the language's Map, sort and string order
--   Types      src/core/errors.ts, event.ts, poller-types.ts, store-types.ts: the shared records;
--              `null` and `undefined` are options, times are natural numbers of milliseconds
--   Scheduler  src/scheduler/scheduler.ts: pure functions on the schedule state; Interval, Pacing,
--              Breaker and Due hold the proofs
--   Store      src/stores/memory/memory-store.ts: the store is a map from keys to records; a method
--              takes the store and returns the new one beside its result. Rows has what a method
--              does to one record, Queries the reads, Calls the methods as one step function;
--              Fencing, Epochs, Commit, Delivery and Parking hold the proofs
--   Diff       src/diff/: diff.ts in the module itself, Canonicalize (canonicalize.ts, hash.ts and
--              sha256Hex of src/core/hash.ts), EventId (event-id.ts); the SHA-256 of Web Crypto is
--              a parameter. Again, Announced, Latest, Deletes, Repeated and Reordered hold the proofs
--   Cursor     src/cursor/: Timestamp (timestamp.ts; durations are milliseconds already, the
--              language's Date is a parameter), Page, Token, Custom (custom.ts, snapshot-diff.ts) and
--              Path (path.ts); Scan and Watermark hold the proofs
--   Budget     src/budget/memory-store.ts: token buckets over whole numbers; Queue is the order of the
--              waiters in src/budget/manager.ts, Policy is src/budget/policy.ts; Rate, Retry, Tickets,
--              Fairness and Limits hold the proofs
--   Consumers  the subscription of src/core/consumers.ts: its calls on a state that records which
--              deliveries were handed out and settled, Handler is handlerConsumer; Settling and
--              Handover hold the proofs
--   LeaseKeeper src/core/lease-keeper.ts: the heartbeat as a step relation; Heartbeat holds the proofs
--   Duration   src/core/duration.ts; RoundTrip holds the proof
--   Dispatcher src/core/dispatcher.ts: one turn of a worker in the module itself, the interleaving of
--              the workers in Round, the loop of a drain in Loop. Groups, Settle, Turns, Outbox,
--              Endings, Written, History, Exclusive, Held and
--              Order hold the proofs
--   Validate   src/validate/validate.ts: the schema is a parameter
--   DefinePoller src/core/define-poller.ts: the configuration, checked and with its defaults; Sound
--              holds the proofs
--   Runner     src/core/runner.ts: Page is processPage, Cycle and Pages are the loop of runCycle over
--              its pages, Finish and Outcome its end, Lanes and Halt what it writes of lanes and
--              schedule, Calls the calls that may throw, Key is runKey. Cursor strategy, fetch
--              function, JSON and SHA-256 are parameters. Counted, Endings, Events, Deletes, Writes,
--              Filed, Filing, FiledLoop, CycleEnds, Repeated, Applied, Runs and Release hold the proofs
--   Engine     src/core/engine.ts: the calls of an operator on one key in the module itself, the listing
--              of partitions in Partitions and tick in Tick; what one key does when it runs is an
--              argument of a tick. Calls, Seeded, Gone and Wakes hold the proofs
--
-- Numbers. Times, counters and sizes are natural numbers without an upper bound; they stay far
-- below 2^53 in the program, where its numbers are exact. Jitter, backoff factor and random draws
-- are quotients, and what the program computes on them in floating point is exact here, so the
-- bounds hold up to the rounding that is written out. A random draw is an argument below 1.
--
-- Loops are recursions on the list that they walk. The digits of a number are written with the
-- number itself as fuel, which is enough since each round divides by ten and needs one less. A
-- round of the dispatcher has two turns for each row and each group and one for each worker, its
-- loop as many iterations as the outbox has rows and four for the window, which doubles at most
-- that often. The loop over the pages of a cycle has three turns for each page below the cap and
-- three more. A tick of the engine has one turn for each key and five more. A drain that
-- used up its fuel would have no result; the cycle and the run in which it stands have none then
-- either.
--
-- Not modelled: the engine's constructor, its daemon loop with timers, replay and inspect; the
-- heartbeat of a lease beside a page of the same run (LeaseKeeper has it alone); the SQL and Redis
-- stores, HTTP, telemetry, the command line and the NestJS module; logging and hooks, which do not
-- change state; `structuredClone`, since values are immutable here; stack traces; fractions in
-- JSON values.
pub mod Base
pub mod Types
pub mod Scheduler
pub mod Store
pub mod Diff
pub mod Cursor
pub mod Budget
pub mod Consumers
pub mod LeaseKeeper
pub mod Duration
pub mod Dispatcher
pub mod Validate
pub mod Runner
pub mod Engine
pub mod DefinePoller
