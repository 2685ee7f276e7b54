-- ===== src/Carrier.antt =====
-- services/carrier-sync-service.
pub mod Mapping
pub mod Model
pub mod Service
pub mod Backoff
pub mod Mock
pub mod Worker
pub mod Client
pub mod Handler
pub mod Wiring
pub mod Router
