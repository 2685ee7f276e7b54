-- ===== src/Tracking.antt =====
-- services/tracking-service.
pub mod Error
pub mod Model
pub mod Status
pub mod Service
pub mod Repository
pub mod Cache
pub mod Handler
pub mod Router
pub mod Wiring
pub mod Notifier
