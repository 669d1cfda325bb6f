-- ===== src/Transfer.antt =====
-- frontend/src/features/terminal/useFileTransfer.ts: the panel that uploads and downloads a file.
pub mod Request
pub mod Panel
pub mod Rounds
pub mod Ended
pub mod Listed
pub mod Agreement
pub mod Status
pub mod Pickers
pub mod Given
pub mod Sources
