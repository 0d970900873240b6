-- ===== src/Authdb.antt =====
-- pkg/auth/authdb: what an access key is stored under, and the database of access grants.
pub mod KeyHash
pub mod Record
pub mod Base32
pub mod EncryptionKey
pub mod Expiration
pub mod Kv
pub mod Database
