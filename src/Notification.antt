-- ===== src/Notification.antt =====
-- services/notification-service.
pub mod Event
pub mod Service
pub mod Handler
pub mod Router
pub mod Sender
