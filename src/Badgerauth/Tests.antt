-- ===== src/Badgerauth/Tests.antt =====
-- Concrete runs of pkg/auth/badgerauth.
mod Codec
mod Grants
mod Changes
mod Settings
mod Store
mod Operations
mod Administration
mod Access
mod Http
