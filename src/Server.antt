-- ===== src/Server.antt =====
-- The server: server/*.py and server/db/*.py.
pub mod RateLimiter
pub mod UdpRelay
pub mod World
pub mod Exec
pub mod Router
pub mod Offline
pub mod Rooms
pub mod Calls
pub mod Files
pub mod Auth
pub mod Ws
pub mod Tcp
