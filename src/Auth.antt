-- ===== src/Auth.antt =====
-- frontend/src/features/auth and shared/http/client.ts: who is logged in, and where the browser is.
pub mod Provider
pub mod Redirects
pub mod Login
pub mod Form
pub mod Refused
