-- ===== src/Session.antt =====
-- src/app_state.rs and src/connection_supervisor.rs: the state of the process, and the life of its
-- three voice transports. Connections, players, decoders and DAVE managers are handles.
pub mod State
pub mod Clear
pub mod Connect
pub mod Commands
pub mod Orderly
pub mod Run
pub mod Reconnect
pub mod Users
