-- ===== src/Voice.antt =====
-- src/voice_conn.rs: the media path of a voice connection. `Send` is `send_rtp_frame` and
-- `send_h264_frame`, `Receive` the transport half of `udp_recv_loop`.
pub mod Send
pub mod Receive
pub mod Transport
pub mod Total
