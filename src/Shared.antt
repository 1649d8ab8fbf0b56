-- ===== src/Shared.antt =====
-- The packages that client and server share: shared/*.py.
pub mod Protocol
pub mod Text
pub mod Words
