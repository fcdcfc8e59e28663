-- ===== src/Chromecast.antt =====
-- The program of chromecast/.
pub mod Json
pub mod Runs
mod Tests
pub mod Protocol
pub mod Discovery
pub mod Session
