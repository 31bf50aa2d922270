-- ===== src/Server.antt =====
-- The server: its tables, pushes, garbage collection, and both at once (server/).
pub mod Db
pub mod Reach
pub mod Push
pub mod Gc
pub mod System
pub mod GcTask
pub mod Keys
pub mod Multipart
pub mod Uploads
pub mod Sign
pub mod Signing
pub mod NixBase32
pub mod Upstream
pub mod Proxy
pub mod Requests
pub mod Pins
mod Tests
