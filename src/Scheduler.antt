-- ===== src/Scheduler.antt =====
-- The event loop's parts: src/detail/scheduler.
pub mod Timeval
pub mod DelayQueue
pub mod HandlerSet
pub mod SelectHandlers
pub mod TriggerSet
pub mod Loop
mod LoopTests
mod HandlerTests
mod Tests
