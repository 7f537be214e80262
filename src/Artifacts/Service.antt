-- ===== src/Artifacts/Service.antt =====
-- backend/app/artifacts/service.py: every change of an artifact's status, and of its session's.
use ai_badge.Prelude.{
  if◌then◌else◌, ◌⊕◌, decimal, ◌==◌, nat_eq, string_eq, select, ℕ, String, Bool, false, not, ◌&&◌,
  Option, none, some, List,
}
use ai_badge.Model.{
  session_status_eq, job_status_eq, artifact_status_eq, session_value, SessionStatus,
  ArtifactStatus, opt_eq, key_eq, Session, Job, WorkflowEvent, Artifact, IdempotencyKey, Action,
  pure, gets, or_raise, raise_if, World, Error, value_error, uuid4, find_session, write_session,
  write_artifact, add_event, add_job, ◌>>=◌, ◌>>◌,
}
use ai_badge.Model.Json.{str, uuid, end, field}
use ai_badge.Trust.Redlines.{is_unapproved, is_empty}
use ai_badge.Orchestrator.Service.{new_job}
use ai_badge.Sessions.Machine.{can_transition}

abbrev pub session_event : ℕ → SessionStatus → ℕ → ℕ → WorkflowEvent
session_event sid target id now = record {
  id = id;
  job_id = none;
  session_id = some sid;
  artifact_id = none;
  resource_type = "session";
  resource_id = some sid;
  event_type = "session_" ⊕ session_value target;
  event_data = some ("session_id=" ⊕ decimal sid);
  created_at = now;
}

abbrev pub artifact_event : Artifact → String → ℕ → ℕ → ℕ → WorkflowEvent
artifact_event a event_type reviewer id now = record {
  id = id;
  job_id = none;
  session_id = some a.session_id;
  artifact_id = some a.id;
  resource_type = "artifact";
  resource_id = some a.id;
  event_type = event_type;
  event_data = some ("reviewer=" ⊕ decimal reviewer);
  created_at = now;
}

-- The ValueError of _transition_session.
abbrev cannot : ℕ → SessionStatus → SessionStatus → String → Error
cannot sid current target reason = value_error (
    "Cannot transition session "
    ⊕ decimal sid
    ⊕ " from "
    ⊕ session_value current
    ⊕ " to "
    ⊕ session_value target
    ⊕ ": "
    ⊕ reason)

unfoldable pub transition_session : ℕ → SessionStatus → Action Unit
unfolding can_transition
transition_session sid target = do
  found ← gets (find_session sid)
  s ← or_raise found (value_error ("Session " ⊕ decimal sid ⊕ " not found"))
  let check = can_transition s.status target false
  raise_if (not check.0) (cannot sid s.status target check.1)
  now ← gets (λ w. w.now)
  write_session sid (λ r. record r { status = target; updated_at = now })
  add_event (session_event sid target)

-- The first of the two steps behind a complete review: needs_review to reviewing.
abbrev pub is_waiting : Option Session → Bool
is_waiting none = false
is_waiting (some s) = s.status == SessionStatus.needs_review

unfoldable pub advance_session : ℕ → Action Unit
unfolding transition_session
advance_session sid = do
  found ← gets (find_session sid)
  if is_waiting found then transition_session sid SessionStatus.reviewing else pure tt
  transition_session sid SessionStatus.approved

-- The artifacts of the session that are not approved.
abbrev pub remaining : ℕ → World → List Artifact
remaining sid w = select (λ a. a.session_id == sid && is_unapproved a) w.artifacts

abbrev pub reviewed : ArtifactStatus → String → String → ℕ → Artifact → Artifact
reviewed status review comment now a = record a {
  status = status;
  review_status = some review;
  review_comment = some comment;
  updated_at = now;
}

unfoldable pub approve_artifact : Artifact → ℕ → String → Action Unit
unfolding advance_session
approve_artifact a reviewer comment = do
  now ← gets (λ w. w.now)
  write_artifact a.id (reviewed ArtifactStatus.approved "approved" comment now)
  add_event (artifact_event a "artifact_approved" reviewer)
  left ← gets (remaining a.session_id)
  if is_empty left then advance_session a.session_id else pure tt

unfoldable pub reject_artifact : Artifact → ℕ → String → Action Job
reject_artifact a reviewer comment = do
  now ← gets (λ w. w.now)
  write_artifact a.id (reviewed ArtifactStatus.rejected "rejected" comment now)
  add_event (artifact_event a "artifact_rejected" reviewer)
  hex ← uuid4
  add_job (
      new_job (IdempotencyKey.retry a.session_id hex) (some a.session_id) "extract_artifact"
        (field "retry_reason" (str comment) end))

unfoldable pub request_publish : Artifact → Action Job
unfolding transition_session
request_publish a = do
  raise_if (is_unapproved a) (value_error "Only approved artifacts can be published")
  job ← add_job (
      new_job (IdempotencyKey.publish a.session_id a.id) (some a.session_id) "publish"
        (field "artifact_id" (uuid a.id) end))
  transition_session a.session_id SessionStatus.publishing
  pure job

unfoldable pub mark_published : Artifact → Action Unit
unfolding transition_session
mark_published a = do
  now ← gets (λ w. w.now)
  write_artifact a.id (λ r. record r { status = ArtifactStatus.published; published_at = some now })
  transition_session a.session_id SessionStatus.published
