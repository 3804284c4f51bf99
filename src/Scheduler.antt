-- ===== src/Scheduler.antt =====
-- internal/scheduler: the queue manager with its leases, and the planner of queue times.
pub mod Config
pub mod Lease
pub mod Manager
pub mod System
pub mod Calendar
pub mod Window
pub mod Search
pub mod Cron
pub mod Planner
pub mod Clock
