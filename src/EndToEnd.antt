-- ===== src/EndToEnd.antt =====
-- The client and the server together: client/app.py, server/ws_server.py and client/app.py again.
pub mod Message
mod Tests
