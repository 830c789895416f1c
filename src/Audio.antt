-- ===== src/Audio.antt =====
-- src/audio_pipeline.rs: the buffers of speech and music, the mixer that encodes one frame per tick,
-- and the conversions between sample formats.
pub mod Floats
pub mod State
pub mod Frame
pub mod Mix
pub mod Fifo
pub mod Drain
pub mod Idle
pub mod Parts
pub mod Ticks
pub mod Heard
pub mod Sent
pub mod Resample
pub mod Convert
