-- ===== src/Order.antt =====
-- services/order-service.
pub mod Error
pub mod Model
pub mod Validation
pub mod Service
pub mod Statements
pub mod Repository
pub mod Cache
pub mod Handler
pub mod Wiring
pub mod Router
