-- ===== src/Cache.antt =====
-- The metadata cache of internal/cache: its entries and the in-memory backend with LRU eviction.
pub mod Entry
pub mod Memory
