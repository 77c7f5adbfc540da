-- ===== src/Sessions.antt =====
-- The sessions of agentctl: agentctl/src/sessions. A session is a harness that runs for an agent in its
-- sandbox, with what is recorded of it.
pub mod Activity
pub mod Status
pub mod Model
pub mod Effects
pub mod Timing
pub mod Blocking
pub mod Stopping
pub mod Resuming
pub mod Reconciler
pub mod Completion
mod Tests
