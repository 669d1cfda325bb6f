-- ===== src/Tests.antt =====
-- Runs of the models on concrete inputs, and the theorems at inputs that meet their hypotheses.
mod Keys
mod Input
mod Palette
mod Touch
mod Snapshot
mod Connection
mod Uploads
mod Files
mod Browse
mod Transfer
mod Sessions
mod Auth
mod Cron
mod Workspace
mod Http
