-- ===== src/Gateway.antt =====
-- services/api-gateway/internal/gateway.
pub mod Error
pub mod Validation
pub mod Upstream
pub mod Headers
pub mod Proxy
pub mod Middleware
pub mod Router
pub mod Configuration
