-- ===== src/Middleware.antt =====
-- pkg/server/middleware/credentials.go: the access key of an S3 request, and the middleware that resolves it.
pub mod Splitting
pub mod Errors
pub mod Credentials
pub mod AccessKey
pub mod RoundTrip
pub mod Header
pub mod Failures
mod Tests
