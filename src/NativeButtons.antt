-- ===== src/NativeButtons.antt =====
-- The program of native_buttons/.
pub mod Controls
pub mod Gestures
pub mod State
