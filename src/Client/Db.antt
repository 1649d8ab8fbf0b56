-- ===== src/Client/Db.antt =====
-- client/db: what the client keeps between two runs, as operations on its tables. Those of
-- client/db/files.py are in FileTable.antt.
pub mod Messages
pub mod Contacts
pub mod Calls
