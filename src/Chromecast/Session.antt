-- ===== src/Chromecast/Session.antt =====
-- chromecast/session.cc.
pub mod Known
pub mod Commands
pub mod World
pub mod Devices
pub mod Finish
pub mod Moved
pub mod Join
pub mod Search
pub mod Hotspot
pub mod Open
mod Runs
pub mod Examples
mod Tests
