-- ===== src/Push.antt =====
-- internal/push/hub.go: the clients of the push channel and the messages that are put on their queues.
pub mod Hub
pub mod Registered
pub mod Offers
pub mod Removals
pub mod Calls
pub mod Delivery
pub mod Safety
mod Examples
