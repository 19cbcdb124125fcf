-- ===== src/Cron.antt =====
-- internal/controller/crontask_controller.go: the CronTask controller.
pub mod Schedule
pub mod Children
pub mod Reconcile
