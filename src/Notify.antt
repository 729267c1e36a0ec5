-- ===== src/Notify.antt =====
-- core/notifier: delivery to the channels, with retries.
pub mod Retry
pub mod Payload
pub mod Notifier
