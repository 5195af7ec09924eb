-- ===== src/Runner.antt =====
-- src/core/runner.ts
pub mod Halt
pub mod Page
pub mod Lanes
pub mod Calls
pub mod Cycle
pub mod Pages
pub mod Finish
pub mod Outcome
pub mod Key
pub mod Release
pub mod Runs
pub mod Counted
pub mod Endings
pub mod Events
pub mod Deletes
pub mod Filed
pub mod Writes
pub mod Filing
pub mod FiledLoop
pub mod CycleEnds
pub mod Repeated
mod Applied
pub mod Examples
