-- ===== src/Delivery.antt =====
-- src/smartwatch_clank/notifications: the delivery policy, the payloads, and the drain of the outbox.
pub mod Policy
pub mod Embed
pub mod Discord
pub mod Direct
pub mod Preview
pub mod Foreseen
pub mod Predicted
pub mod Rows
pub mod Selected
pub mod Safety
pub mod Retries
pub mod Refusals
pub mod Returns
pub mod Completion
