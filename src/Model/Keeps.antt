-- ===== src/Model/Keeps.antt =====
-- The rules for actions that keep the database valid, take nothing from its ledger and spare the
-- jobs that are done with.
pub mod Actions
pub mod Writes
pub use ai_badge.Model.Keeps.Actions.{
  Keeps, Keeps-pure, Keeps-raise, Keeps-gets, Keeps-or_raise, Keeps-if, Keeps-scalar, Keeps-request,
  Keeps-bind, Keeps-raise_if, Keeps-uuid4, Keeps-commit, Keeps-modify, Keeps-widen, spares-continue,
}
pub use ai_badge.Model.Keeps.Writes.{
  IsDb-set_session, Keeps-write_session, Keeps-write_artifact, IsDb-set_deletion_job,
  Appends-set_deletion_job, Keeps-write_deletion_job, JobStep, IsDb-update_jobs, ledger-update_jobs,
  Appends-update_jobs, Keeps-write_job,
}

pub ruleset keeps_rules = (
  Keeps-pure, Keeps-raise, Keeps-gets, Keeps-or_raise, Keeps-if, Keeps-scalar, Keeps-bind,
  Keeps-raise_if, Keeps-uuid4, Keeps-commit, Keeps-write_session, Keeps-write_artifact,
  Keeps-write_deletion_job, Keeps-write_job,
)
