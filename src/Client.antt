-- ===== src/Client.antt =====
-- The modelled parts of the client.
pub mod JitterBuffer
pub mod FileCrypto
pub mod Fingerprint
pub mod AudioCrypto
pub mod Envelope
pub mod AudioCodec
pub mod AudioStream
pub mod Stun
pub mod Samples
pub mod FileTable
pub mod FileTransfer
pub mod World
pub mod Db
pub mod MessageHandler
pub mod CallHandler
pub mod Fixtures
pub mod RoomHandler
pub mod FileHandler
pub mod Reading
pub mod Keygen
pub mod AuthHandler
pub mod App
pub mod Screens
pub mod Connection
