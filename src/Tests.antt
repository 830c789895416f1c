-- ===== src/Tests.antt =====
-- Concrete runs of the properties.
pub mod Media
mod Packets
mod Ipc
pub mod Dave
pub mod Session
pub mod Audio
pub mod Playback
mod Stream
mod Outbound
