-- ===== src/Routing.antt =====
-- internal/routing: the order in which accounts are tried, and what an execution does with it.
pub mod Scheduler
pub mod Cooldown
pub mod Failure
pub mod LocalUsage
pub mod Candidates
pub mod Attempt
pub mod Execute
pub mod Stream
pub mod Plan
