-- ===== src/Repository.antt =====
-- pkg/repository: persistence without HTTP.
pub mod Persistence
pub mod Tables
pub mod Driver
pub mod Books
pub mod ListQuery
pub mod Users
pub mod RefreshTokens
