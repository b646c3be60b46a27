-- ===== src/Webhook.antt =====
-- internal/delivery/webhook: events signed, delivered with retries, and verified on arrival.
pub mod Clock
pub mod Guard
mod Marks
mod Window
pub mod Verify
mod Replay
mod Forged
pub mod Dispatcher
mod Deliver
pub mod Store
mod Listed
mod Attempts
pub mod Signed
mod Examples
