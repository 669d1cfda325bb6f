-- ===== src/Browse.antt =====
-- The browsing of directories: the page of files (FilesPage.tsx) and the file picker of the
-- terminal page (useFileBrowser.ts, FilePickerDialog.tsx).
pub mod Query
pub mod Page
pub mod Latest
pub mod Picker
pub mod Late
