-- ===== src/Sessions/Service.antt =====
-- backend/app/sessions/service.py: retract_session, the first step of the retraction saga.
use ai_badge.Prelude.{
  ◌⊕◌, decimal, ◌==◌, nat_eq, string_eq, find, ℕ, String, false, not, ◌&&◌, Option, none, some,
}
use ai_badge.Model.{
  session_status_eq, job_status_eq, artifact_status_eq, SessionStatus, JobStatus, opt_eq, key_eq,
  Session, DeletionJob, Action, gets, or_raise, raise_if, value_error, write_session,
  add_deletion_job, ◌>>=◌, ◌>>◌,
}
use ai_badge.Model.Json.{Json, null, str, Fields, end, field}
use ai_badge.Sessions.Machine.{can_transition}

-- `DeletionJob(resource_type=..., resource_id=sid, session_id=sid, status="pending", ...)`
abbrev pub new_deletion_job : String → ℕ → Fields → ℕ → ℕ → DeletionJob
new_deletion_job resource_type sid targets id now = record {
  id = id;
  artifact_id = none;
  session_id = some sid;
  resource_type = resource_type;
  resource_id = sid;
  status = JobStatus.pending;
  cascade_targets = some targets;
  error_message = none;
  retry_count = 0;
  max_retries = 3;
  next_run_at = none;
  completed_at = none;
  created_at = now;
}

abbrev pub json_of_key : Option String → Json
json_of_key none = null
json_of_key (some k) = str k

-- `session.status = RETRACTING` and the tombstone fields.
abbrev pub tombstone : ℕ → ℕ → String → Session → Session
tombstone now user_id reason s = record s {
  status = SessionStatus.retracting;
  deleted_at = some now;
  retracted_by = some user_id;
  retraction_reason = some reason;
}

-- The saga on the session that the query found.
unfoldable pub retract_found : ℕ → String → Session → Action Unit
retract_found user_id reason s = do
  let check = can_transition s.status SessionStatus.retracting false
  raise_if (not check.0) (value_error check.1)
  now ← gets (λ w. w.now)
  write_session s.id (tombstone now user_id reason)
  add_deletion_job (
      new_deletion_job "delete_artifact_rows" s.id
        (field "description" (str "Hard-delete all artifacts") end))
  add_deletion_job
      (new_deletion_job "delete_local_audio" s.id (field "audio_key" (json_of_key s.audio_key) end))
  add_deletion_job
      (new_deletion_job "delete_feishu_docs" s.id (field "description" (str "Feishu stub") end))

unfoldable pub retract_session : ℕ → ℕ → String → Action Unit
unfolding can_transition retract_found
retract_session session_id user_id reason = do
  found ← gets (λ w. find (λ s. s.id == session_id && s.user_id == user_id) w.sessions)
  s ← or_raise found (value_error ("Session " ⊕ decimal session_id ⊕ " not found"))
  retract_found user_id reason s
