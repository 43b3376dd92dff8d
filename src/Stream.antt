-- ===== src/Stream.antt =====
-- backend/app/api/chat_stream_v2.py: the client contract for runtime events.
pub mod Replay
pub mod Turns
pub mod Reducer
pub mod Samples
pub mod Examples
