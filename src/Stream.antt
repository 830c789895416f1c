-- ===== src/Stream.antt =====
-- src/stream_publish.rs: the access units of the published video, the frames of a browser, and the
-- commands and events of the publisher.
pub mod AccessUnits
pub mod Search
pub mod Drain
pub mod Player
pub mod Command
pub mod Observer
pub mod Running
