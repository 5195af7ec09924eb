-- ===== src/Types.antt =====
-- The shared data of the program: src/core/errors.ts, event.ts, poller-types.ts, store-types.ts.
-- `undefined` and `null` fields are options; epoch milliseconds and counters are natural numbers.
mod Values
mod Errors
mod Event
mod State
mod Rows
mod Poller
mod Outcome
pub mod Samples
pub use Values.*
pub use Errors.*
pub use Event.*
pub use State.*
pub use Rows.*
pub use Poller.*
pub use Outcome.*
