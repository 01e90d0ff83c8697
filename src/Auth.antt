-- ===== src/Auth.antt =====
-- auth/credentials.py: `OAuth2Auth`, the credential that many threads share. Each thread sends one
-- request through `sync_auth_flow`: a thread is a program counter over the shared credential, and a
-- `Move` is one read, one write or one call of what the code calls. What the `refresh` callable,
-- the store, the clock and the server answer is chosen by the move.
pub mod Challenge
pub mod Refresh
pub mod Tests
