-- ===== src/Api.antt =====
-- pkg/api: the handlers, and the routes with their middleware.
pub mod Query
pub mod Books
pub mod Users
pub mod Router
pub mod Probes
