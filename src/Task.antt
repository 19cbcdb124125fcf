-- ===== src/Task.antt =====
-- internal/controller/task_controller.go
pub mod Status
pub mod Quota
pub mod Cleanup
pub mod Mounts
pub mod Sessions
pub mod Stop
pub mod Pods
pub mod Queue
pub mod Reads
pub mod Start
pub mod Reconcile
