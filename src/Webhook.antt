-- ===== src/Webhook.antt =====
-- internal/webhook: subscriptions and their signed deliveries.
pub mod Breaker
pub mod Hex
pub mod Signature
pub mod Bulkhead
pub mod Claims
pub mod Dispatcher
pub mod Subscriptions
pub mod Ssrf
pub mod Dialer
