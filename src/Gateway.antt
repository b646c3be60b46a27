-- ===== src/Gateway.antt =====
-- internal/api/gateway/middleware.go: what a request passes before the server sees it.
pub mod Auth
mod Limiter
mod Metrics
pub mod Handler
pub mod Admitted
pub mod Scoped
mod Tenants
mod Bypass
mod Examples
