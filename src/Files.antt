-- ===== src/Files.antt =====
-- internal/files/service.go, part by part in the modules below.
pub mod Locks
pub mod Disk
pub mod Threads
pub mod Retry
pub mod Resolve
pub mod Reconcile
pub mod Upload
