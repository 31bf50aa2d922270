-- ===== src/Client.antt =====
-- The client (client/).
pub mod StreamPush
pub mod ShellSplit
pub mod Nar
pub mod Multipart
mod Tests
