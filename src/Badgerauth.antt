-- ===== src/Badgerauth.antt =====
-- pkg/auth/badgerauth: the replicated store of access records.
pub mod NodeId
pub mod Clock
pub mod LogEntry
pub mod Proto
pub mod Records
pub mod Consistent
pub mod Delta
pub mod Response
pub mod Txn
pub mod Db
pub mod Admin
pub mod Rpc
pub mod Node
pub mod CatchUp
mod Tests
