-- ===== src/Connection.antt =====
-- connection/: how two peers settle which of their crossed connections to keep, the frames of the
-- messages on a stream, and the pool. QUIC itself is not modelled: a stream is the bytes that arrive.
pub mod Perspective
pub mod Frames
pub mod Link
pub mod Pool
pub mod Shutdown
pub mod Secure
pub mod Backoff
pub mod Dialing
pub mod Listening
