-- ===== src/Stomp.antt =====
-- src/transport/stomp/: the frames, the client of the message broker, and the transport that uses it.
pub mod Text
pub mod Frame
pub mod State
pub mod Client
pub mod Transport
