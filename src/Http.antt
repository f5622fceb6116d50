-- ===== src/Http.antt =====
-- channel/channelapp/source/http.c: the thread that fetches one file at a time over HTTP.
pub mod Url
pub mod Fetch
pub mod Tests
