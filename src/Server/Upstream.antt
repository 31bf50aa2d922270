-- ===== src/Server/Upstream.antt =====
-- The upstream caches from which misses are filled (server/upstream.go): their narinfos, the checks
-- of what they send, and the fill.
pub mod Narinfo
pub mod Fetch
pub mod Misses
pub mod Fill
mod Tests
