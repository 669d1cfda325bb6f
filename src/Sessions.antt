-- ===== src/Sessions.antt =====
-- frontend/src/features/sessions: the sessions of the client and the dialogs about them.
pub mod Env
pub mod SameLines
pub mod SameVars
pub mod Store
pub mod Dialogs
pub mod Listing
pub mod Grid
pub mod Newest
pub mod Full
