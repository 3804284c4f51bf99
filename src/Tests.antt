-- ===== src/Tests.antt =====
-- Runs of the model, and the theorems at concrete inputs.
mod Jobs
mod Planning
mod Backups
mod Clusters
mod Files
mod Redactions
mod Stores
mod Sessions
mod Requests
mod Programs
mod Tables
mod Replays
