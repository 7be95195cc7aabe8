-- ===== src/Middleware.antt =====
-- internal/middleware: what stands between the router and the handlers.
pub mod Permission
pub mod Authentication
pub mod RequestId
pub mod Metrics
