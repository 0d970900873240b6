-- ===== src/GcsLock.antt =====
-- pkg/gcslock: a lock that is an object in a bucket of Google Cloud Storage.
pub mod Ops
pub mod Lists
pub mod Mutex
pub mod Locking
pub mod Clients
pub mod Exclusion
pub mod Deletions
pub mod Theft
mod Tests
