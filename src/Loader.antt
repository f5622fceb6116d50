-- ===== src/Loader.antt =====
-- channel/channelapp/source/loader.c: uploads over TCP and USB Gecko, and loading an application.
pub mod Request
pub mod Threads
pub mod Filled
pub mod Kept
pub mod Called
pub mod Reachable
pub mod Load
pub mod Owned
pub mod Result
pub mod Whole
pub mod Receive
pub mod Received
pub mod Lost
mod Tests
