-- ===== src/HttpAuth.antt =====
-- pkg/auth/httpauth: the HTTP interface of the auth service.
pub mod Mux
pub mod Resources
pub mod Routes
pub mod Registration
pub mod Buckets
