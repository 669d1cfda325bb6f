-- ===== src/Files.antt =====
-- frontend/src/features/files/api.ts: the client of the server's files.
pub mod Upload
pub mod Settled
pub mod Names
pub mod Basename
