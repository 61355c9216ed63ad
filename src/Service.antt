-- ===== src/Service.antt =====
-- pkg/service: the use cases, over the interfaces of the repository, the cache, the denylist and
-- the event publisher.
pub mod Events
pub mod CacheKey
pub mod Books
pub mod Users
