-- ===== src/Tests.antt =====
-- Concrete runs: a cluster that answers every call, and the theorems at inputs that meet their
-- hypotheses.
pub mod Cluster
mod CronRuns
mod StandbyRuns
mod QuotaRuns
mod TaskRuns
mod StartRuns
mod SkillRuns
mod ContextRuns
mod ServerRuns
