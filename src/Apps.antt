-- ===== src/Apps.antt =====
-- channel/channelapp/source/appentry.c: the applications on the active storage device.
pub mod Text
pub mod Entry
pub mod Order
pub mod Table
mod Tests
