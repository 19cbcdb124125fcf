-- ===== src/Api.antt =====
-- The API types (api/v1alpha1) and the Kubernetes objects that the controllers read and write.
pub mod Errors
pub mod Library
pub mod Meta
pub mod Context
pub mod Agent
pub mod Task
pub mod CronTask
