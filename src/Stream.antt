-- ===== src/Stream.antt =====
-- crates/transcription/src/stream.rs: the incremental transcription of one channel.
pub mod Config
pub mod Line
pub mod Features
pub mod Overwriting
pub mod Columns
pub mod Words
pub mod Session
pub mod Opening
pub mod Snapshot
pub mod Patches
pub mod Emission
pub mod Emitting
pub mod Times
pub mod Tracking
pub mod Replay
pub mod Window
pub mod Settling
pub mod Turns
pub mod Push
pub mod Caching
pub mod Tests
