-- ===== src/Devin.antt =====
-- internal/devin: the mapper of upstream frames to events, and the session token.
pub mod Frames
pub mod StreamMapper
pub mod Session
