-- ===== src/Tests.antt =====
-- Concrete inputs, and the theorems at them.
mod Orders
mod Tracking
mod Repository
mod Notification
mod Notifier
mod Carrier
mod Order
mod System
mod Gateway
mod Metrics
mod Wiring
mod Router
mod Server
