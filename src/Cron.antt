-- ===== src/Cron.antt =====
-- frontend/src/features/crons: the form of a cron job (cronForm.ts), the store of jobs
-- (CronContext.tsx) and the list of the page (CronPage.tsx).
pub mod Env
pub mod EnvRoundTrip
pub mod Api
pub mod Form
pub mod Jobs
pub mod Sorted
pub mod Ordered
pub mod Store
pub mod Lookup
pub mod Schedule
pub mod Requests
pub mod Dialog
pub mod Submits
pub mod Actions
pub mod Busy
pub mod History
pub mod Executions
pub mod Table
pub mod Pressed
pub mod Shown
pub mod Expanded
pub mod Labels
pub mod Page
pub mod Panels
pub mod Presets
