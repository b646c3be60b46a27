-- ===== src/Agents.antt =====
-- internal/agent and internal/routing: the pool of connected agents, and the router over it.
pub mod Pool
mod Registry
mod Sessions
mod Lost
pub mod Router
mod Default
mod Examples
