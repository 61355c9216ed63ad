-- ===== src/Middleware.antt =====
-- pkg/middleware: what runs before the handlers.
pub mod RateLimit
pub mod ApiKey
pub mod JwtAuth
pub mod Rbac
pub mod MaxBody
pub mod RequestId
pub mod Timeout
pub mod AccessLog
pub mod Metrics
pub mod Spans
pub mod Onward
