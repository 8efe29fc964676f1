-- ===== src/NativeHost.antt =====
-- products/native-host: the length-prefixed streams between browser, native host and connector, and
-- the replay window of the local channel.
pub mod Framing
pub mod Replay
pub mod Exchange
mod Tests
