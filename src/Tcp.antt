-- ===== src/Tcp.antt =====
-- channel/channelapp/source/tcp.c: transfers over a non-blocking socket.
pub mod Transfer
pub mod Line
mod Tests
