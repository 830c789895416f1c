-- ===== src/Lib.antt =====
-- Verification of clankvox, a Discord voice and video endpoint: a process that takes JSON commands,
-- joins voice channels and go-live streams over WebSocket and encrypted UDP, and sends, receives,
-- decodes and captures their audio and video.
--
-- Parts and files (paths from the repository's root):
--   Rtp            src/rtp.rs: RTP headers, padding, header extensions.
--   Crypto         src/transport_crypto.rs: the `rtpsize` transport encryption.
--   Rtcp           src/rtcp.rs and `send_rtcp_pli` of src/voice_conn.rs: feedback packets.
--   AnnexB, H264   src/h264.rs: the scanners of Annex-B streams, and `H264Depacketizer`.
--   Vp8            src/vp8.rs: the payload descriptor and `Vp8Depacketizer`.
--   Depacketizers  src/voice_conn.rs: `VideoDepacketizerState` and `VideoDepacketizers`.
--   Voice          src/voice_conn.rs: `send_rtp_frame`, `send_h264_frame` (Voice/Send), and the
--                  transport half of `udp_recv_loop` (Voice/Receive).
--   Music, Publish src/music.rs and src/stream_publish.rs: `MusicState`, `StreamPublishState`.
--   Session        src/app_state.rs and src/connection_supervisor.rs: the state of the process
--                  (Session/State), clearing and reconnect scheduling (Session/Clear), opening of
--                  transports (Session/Connect), connection commands (Session/Commands), and
--                  sequences of events (Session/Run).
--   Capture        src/capture.rs and parts of src/capture_supervisor.rs: sequence classes, speaking
--                  states, capture ticks.
--   Audio          src/audio_pipeline.rs: gain envelopes (Audio/Floats), the buffers (Audio/State), the
--                  mixer `next_opus_frame` (Audio/Frame), the resampler and the conversions
--                  (Audio/Resample, Audio/Convert).
--   Playback       src/playback_supervisor.rs: the state (Playback/State), the commands and the events
--                  of the music player (Playback/Command), the audio tick (Playback/Tick), and
--                  sequences of all of these (Playback/Run). The session holds the audio state and the
--                  music queue as a handle and a list that it clears; their contents are here.
--   Stream         src/stream_publish.rs: the access units of the byte stream (Stream/AccessUnits), the
--                  player's methods and the frames of a browser (Stream/Player), the commands and the
--                  events of the publisher (Stream/Command), over the state of the session.
--   Outbound       src/playback_supervisor.rs and src/stream_publish.rs: the ends of the audio tick and
--                  of the publish tick, which encrypt frames by Dave and send them by Voice.
--   Dave           src/dave.rs: `DaveManager`, the end-to-end encryption over the crate davey.
--   Ipc            src/ipc.rs: the payload of captured audio, and the two inbound lanes with every
--                  interleaving of the reader thread and the main loop.
--   Base           the shared helpers: lists and Boolean tests over native numbers, bytes and words,
--                  and `Outcome`, the code that may panic.
--   Tests          every property applied at a concrete input.
--
-- How the code is rendered. Bytes and integers are natural numbers, with `% 2 ^ w` where the code
-- wraps. A method of a Rust object is a function from the state to the result and the new state;
-- atomic counters are fields. An index or a slice is an operation that may panic (`Outcome`), a
-- `None` or an `Err` is `none`, or `false` beside the new state. What the process sends out is a
-- list of effects in the state (Session/State); the texts of errors and log lines are left out.
-- A HashMap is a function from keys, or a list of entries where the code iterates. Handles of
-- connections, players and decoders are numbers, instants are milliseconds.
--
-- Parameters: the AEAD ciphers, with the laws of authenticated encryption (`IsAead`); the UDP socket,
-- as which datagrams it takes; `str::parse::<u64>`; the `DaveSession`
-- of the crate davey (`Dave.DaveSession`); and what `VoiceConnection::connect` comes to,
-- whose handshake is network I/O.
-- Floating-point numbers are two types with the operations that the code uses (`Audio.Floats`); the
-- Opus encoder is a state with a step; base64 and the operating system's signals are functions
-- (`Playback.Command.Machine`). A sample is an integer, and the mixer's sums are exact, as two i16s
-- cannot overflow an i32.
-- A JSON message is a value of any type, with the test `is_lossy_inbound_msg`.
--
-- Fuel: `split_h264_annexb_nalus` has one round more than the frame has bytes, and each round consumes
-- at least three bytes; `push_stap` has as many rounds as the payload has bytes, each consuming at least
-- three, and without fuel it panics; `chunks_from` has the length of the slice.
-- `find_aud_from` has one round more than the stream has bytes, and each round goes on behind a start
-- code; `drain_from` has as many rounds as the buffer has bytes, and each takes at least
-- four. `send_frames` has the bound of the code. The other
-- loops are structural.
--
-- Not modelled: the WebSocket handshake and opcodes, the codec branches of `udp_recv_loop`, the
-- IPC writer, the threads of the players and decoders, and process handling.
pub mod Base
pub mod Rtp
pub mod Crypto
pub mod AnnexB
pub mod H264
pub mod Vp8
pub mod Depacketizers
pub mod Voice
pub mod Rtcp
pub mod Music
pub mod Publish
pub mod Session
pub mod Capture
pub mod Audio
pub mod Playback
pub mod Stream
pub mod Outbound
pub mod Dave
pub mod Ipc
pub mod Tests
