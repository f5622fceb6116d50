-- ===== src/Wiiload.antt =====
-- The program wiiload, which sends an application to the loader: channel/wiiload/main.c.
pub mod Send
pub mod Args
pub mod Main
mod Tests
