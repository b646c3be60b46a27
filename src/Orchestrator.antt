-- ===== src/Orchestrator.antt =====
-- internal/orchestrator: the job server.
pub mod Queue
pub mod Types
pub mod Rules
pub mod Persist
pub mod Date
pub mod Submit
pub mod Read
pub mod Control
pub mod Inquiry
pub mod Service
pub mod Served
pub mod Unscoped
mod Durable
pub mod History
mod Settled
pub mod Worker
pub mod Events
pub mod System
pub mod Callback
pub mod Change
pub mod Refine
pub mod Consistent
pub mod Life
pub mod Idempotency
pub mod Scope
pub mod Start
pub mod Recovery
mod Resumed
pub mod Restart
pub mod Faults
mod Overtaken
mod Stale
mod Collision
pub mod Metrics
mod Sums
pub mod Retry
mod Examples
