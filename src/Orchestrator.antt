-- ===== src/Orchestrator.antt =====
-- backend/app/orchestrator: the jobs of the pipeline and the worker that runs them.
pub mod Service
pub mod Creation
pub mod Jobs
pub mod Retries
pub mod Worker
pub mod Keeps
pub mod Pending
