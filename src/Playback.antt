-- ===== src/Playback.antt =====
-- src/playback_supervisor.rs: speech and music, their commands, the events of the music player and
-- the audio tick.
pub mod State
pub mod Trim
pub mod Command
pub mod Tick
pub mod Play
pub mod Prefetch
pub mod Pending
pub mod Told
pub mod Speaks
mod CommandSpeaks
mod TickSpeaks
pub mod Run
pub mod Stopped
