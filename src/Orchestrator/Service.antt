-- ===== src/Orchestrator/Service.antt =====
-- backend/app/orchestrator/service.py: creation of jobs, their transitions, the pipeline.
use ai_badge.Prelude.{
  ltb, if◌then◌else◌, ◌⊕◌, ◌==◌, nat_eq, string_eq, select, ℕ, ◌+◌, String, Option, none, some,
  List, [], ◌∷◌,
}
use ai_badge.Model.{
  session_status_eq, job_status_eq, artifact_status_eq, job_value, JobStatus, opt_eq, key_eq, Job,
  WorkflowEvent, IdempotencyKey, Action, pure, gets, scalar_one_or_none, write_job, add_event,
  add_job, ◌>>=◌, ◌>>◌,
}
use ai_badge.Model.Json.{Fields, end}

abbrev pub job_type_transcribe : String
job_type_transcribe = "transcribe"

abbrev pub job_type_summarize : String
job_type_summarize = "summarize"

abbrev pub job_type_extract_artifact : String
job_type_extract_artifact = "extract_artifact"

abbrev pub job_type_publish : String
job_type_publish = "publish"

-- `PIPELINE_NEXT.get(job_type)`; a type that maps to None and one that is missing are both `none`.
unfoldable pub pipeline_next : String → Option String
pipeline_next t =
    if t == job_type_transcribe
    then some job_type_summarize
    else if t == job_type_summarize
    then some job_type_extract_artifact
    else none

-- `Job(idempotency_key=..., session_id=..., job_type=..., status="pending", input_payload=...)`,
-- with the defaults of the other columns.
abbrev pub new_job : IdempotencyKey → Option ℕ → String → Fields → ℕ → ℕ → Job
new_job key sid job_type payload id now = record {
  id = id;
  idempotency_key = key;
  session_id = sid;
  job_type = job_type;
  status = JobStatus.pending;
  input_payload = payload;
  output_payload = none;
  error_message = none;
  priority = 0;
  retry_count = 0;
  max_retries = 3;
  next_run_at = none;
  started_at = none;
  completed_at = none;
  created_at = now;
}

-- `WorkflowEvent(job_id=..., event_type=...)`
abbrev pub job_event : ℕ → String → ℕ → ℕ → WorkflowEvent
job_event jid event_type id now = record {
  id = id;
  job_id = some jid;
  session_id = none;
  artifact_id = none;
  resource_type = "job";
  resource_id = none;
  event_type = event_type;
  event_data = none;
  created_at = now;
}

unfoldable pub pipeline_job : Option ℕ → String → Action Job
pipeline_job sid job_type =
    add_job (new_job (IdempotencyKey.pipeline sid job_type) sid job_type end)

abbrev pub pipeline : List String
pipeline = job_type_transcribe ∷ job_type_summarize ∷ job_type_extract_artifact ∷ []

unfoldable pub add_pipeline_jobs : Option ℕ → List String → Action (List Job)
add_pipeline_jobs sid [] = pure []
add_pipeline_jobs sid (t ∷ types) = do
  job ← pipeline_job sid t
  jobs ← add_pipeline_jobs sid types
  pure (job ∷ jobs)

unfoldable pub add_created_events : List Job → Action Unit
add_created_events [] = pure tt
add_created_events (job ∷ jobs) = do
  add_event (job_event job.id "job_created")
  add_created_events jobs

unfoldable pub create_jobs_for_session : ℕ → Action (List Job)
unfolding pipeline_job add_pipeline_jobs add_created_events
create_jobs_for_session sid = do
  jobs ← add_pipeline_jobs (some sid) pipeline
  add_created_events jobs
  pure jobs

-- The existing job with the pipeline's key, or a new one.
unfoldable pub ensure_job : Option ℕ → String → Option Job → Action Job
ensure_job sid next (some existing) = pure existing
ensure_job sid next none = do
  job ← pipeline_job sid next
  add_event (job_event job.id "job_created")
  pure job

unfoldable pub ensure_next_job : Option ℕ → String → Action Job
unfolding pipeline_job ensure_job
ensure_next_job sid next = do
  rows ← gets (λ w. select (λ j. j.idempotency_key == IdempotencyKey.pipeline sid next) w.jobs)
  existing ← scalar_one_or_none rows
  ensure_job sid next existing

-- What transition_job writes to the row, by the new status.
abbrev pub fail_schedule : ℕ → Job → Job
fail_schedule now j =
    if ltb j.retry_count j.max_retries
    then record j { next_run_at = some now; retry_count = j.retry_count + 1 }
    else record j { next_run_at = none }

abbrev set_output : Option Fields → Job → Job
set_output none j = j
set_output (some p) j = record j { output_payload = some p }

abbrev set_error : Option String → Job → Job
set_error none j = j
set_error (some e) j = record j { error_message = some e }

unfoldable pub transition_row : ℕ → JobStatus → Option Fields → Option String → Job → Job
transition_row now JobStatus.running out e j = record j {
  status = JobStatus.running;
  started_at = some now;
}
transition_row now JobStatus.completed out e j =
    set_output out (record j { status = JobStatus.completed; completed_at = some now })
transition_row now JobStatus.failed out e j =
    fail_schedule now (set_error e (record j { status = JobStatus.failed }))
transition_row now JobStatus.pending out e j = record j { status = JobStatus.pending }

-- `next_job_type = PIPELINE_NEXT.get(job.job_type)` after a completion.
unfoldable pub chain : Option ℕ → Option String → Action Unit
chain sid none = pure tt
chain sid (some next) = do ensure_next_job sid next; pure tt

unfoldable pub transition_job : Job → JobStatus → Option Fields → Option String → Action Unit
unfolding ensure_next_job transition_row chain
transition_job j new_status out e = do
  now ← gets (λ w. w.now)
  write_job j.id (transition_row now new_status out e)
  add_event (job_event j.id ("status_" ⊕ job_value j.status ⊕ "_to_" ⊕ job_value new_status))
  if new_status == JobStatus.completed
      then chain j.session_id (pipeline_next j.job_type)
      else pure tt

unfoldable pub retry_job : Job → Action Unit
unfolding transition_job
retry_job j = transition_job j JobStatus.pending none none
