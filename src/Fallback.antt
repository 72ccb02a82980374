-- ===== src/Fallback.antt =====
-- src/kohakuhub/api/fallback: repositories that are not stored here are looked up at other hubs.
pub mod Keys
pub mod Cache
pub mod Chain
