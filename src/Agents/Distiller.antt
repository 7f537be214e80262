-- ===== src/Agents/Distiller.antt =====
-- backend/app/agents/distiller.py: the summarize and extract_artifact jobs.
use ai_badge.Prelude.{
  if◌then◌else◌, ◌==◌, nat_eq, string_eq, select, ℕ, String, Bool, false, ◌&&◌, ◌||◌, Option, none,
  some, List,
}
use ai_badge.Model.{
  session_status_eq, job_status_eq, artifact_status_eq, SessionStatus, JobStatus, ArtifactStatus,
  opt_eq, key_eq, Job, Artifact, Action, pure, gets, or_raise, commit, World, value_error,
  integrity_error, scalar_one_or_none, write_session, write_job, add_artifact, ◌>>=◌, ◌>>◌,
}
use ai_badge.Model.Json.{get_or, Json, str, Fields, end, field}
use ai_badge.Agents.Prompts.{summarize, extract}
use ai_badge.Agents.Providers.{Providers}
use ai_badge.Agents.Capture.{lift, completed_with}

-- `Job.session_id == sid`, false where the left side is NULL.
abbrev pub same_session : Option ℕ → Option ℕ → Bool
same_session (some a) (some b) = a == b
same_session _ _ = false

-- The completed jobs of a session with a type.
abbrev pub completed_jobs : Option ℕ → String → World → List Job
completed_jobs sid job_type w =
    select
      (λ j.
        same_session sid j.session_id
        && (j.job_type == job_type && j.status == JobStatus.completed))
      w.jobs

abbrev output_of : Option Job → Option Fields
output_of none = none
output_of (some j) = j.output_payload

unfoldable pub get_transcript : Job → Action Json
get_transcript j = do
  rows ← gets (completed_jobs j.session_id "transcribe")
  found ← scalar_one_or_none rows
  output ←
      or_raise (output_of found) (value_error "No completed transcribe job found for this session")
  pure (get_or "transcript" (str "") output)

abbrev no_summary : Fields
no_summary =
    field "artifact_type" (str "meeting_minutes")
      (field "title" (str "Untitled") (field "summary" (str "") end))

abbrev or_default : Option Fields → Fields
or_default none = no_summary
or_default (some f) = f

unfoldable pub get_summarize_result : Option ℕ → Action Fields
get_summarize_result sid = do
  rows ← gets (completed_jobs sid "summarize")
  found ← scalar_one_or_none rows
  pure (or_default (output_of found))

unfoldable pub handle_summarize_job : Providers → Job → Action Unit
unfolding get_transcript lift
handle_summarize_job p j = do
  transcript ← get_transcript j
  result ← lift (summarize p transcript)
  write_job j.id (completed_with result)
  commit

-- `ARTIFACT_SCHEMAS.get(artifact_type)`: the four types that have a schema.
abbrev known_type : String → Option String
known_type t =
    if t == "meeting_minutes" || t == "decision_record" || t == "faq_draft" || t == "sop_draft"
    then some t
    else none

abbrev pub schema_type : Json → Option String
schema_type (str t) = known_type t
schema_type _ = none

abbrev pub new_artifact : ℕ → ℕ → String → Json → Fields → Json → ℕ → ℕ → Artifact
new_artifact sid jid artifact_type title content summary id now = record {
  id = id;
  session_id = sid;
  job_id = some jid;
  artifact_type = artifact_type;
  title = some title;
  content = content;
  summary = some summary;
  status = ArtifactStatus.pending_review;
  assigned_reviewer_id = none;
  review_status = none;
  review_comment = none;
  published_at = none;
  created_at = now;
  updated_at = now;
}

-- The last writes of the handler: the artifact, the session's status, the job's result. The
-- artifact's session must be there: the column is NOT NULL.
unfoldable pub store_artifact : Job → String → Json → Fields → Json → Action Unit
store_artifact j artifact_type title content summary = do
  sid ← or_raise j.session_id integrity_error
  add_artifact (new_artifact sid j.id artifact_type title content summary)
  write_session sid (λ s. record s { status = SessionStatus.needs_review })
  write_job j.id
      (completed_with (field "artifact_type" (str artifact_type) (field "title" title end)))
  commit

unfoldable pub handle_extract_artifact_job : Providers → Job → Action Unit
unfolding get_transcript get_summarize_result lift store_artifact
handle_extract_artifact_job p j = do
  transcript ← get_transcript j
  summary ← get_summarize_result j.session_id
  artifact_type ←
      or_raise (schema_type (get_or "artifact_type" (str "meeting_minutes") summary))
        (value_error "Unknown artifact_type")
  let title = get_or "title" (str "Untitled") summary
  content ← lift (extract p transcript artifact_type title)
  store_artifact j artifact_type title content (get_or "summary" (str "") summary)
