-- ===== src/Uploads.antt =====
-- frontend/src/features/files/FilesPage.tsx: uploads are queued, run at most three at a time, and
-- summed up when none is left.
pub mod State
pub mod Steps
pub mod Limits
pub mod Progress
pub mod Summary
pub mod Totals
pub mod Cleared
