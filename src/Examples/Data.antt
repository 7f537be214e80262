-- ===== src/Examples/Data.antt =====
-- Rows and worlds for the examples.
use ai_badge.Prelude.{ℕ, true, none, some, List, [], ◌∷◌, arith, Option}
use ai_badge.Model.{
  SessionStatus, ArtifactStatus, Session, Job, Artifact, IdempotencyKey, World, ok, IsValid, Db,
}
use ai_badge.Model.Json.{str, end, field, no_items, Fields}
use ai_badge.Orchestrator.Service.{new_job}
use ai_badge.Agents.Providers.{Providers, TranscriptResult, Format, written, of_class}

-- Session 1 of user 7, with consent and a recording.
abbrev pub session_in : SessionStatus → Session
session_in status = record {
  id = 1;
  user_id = 7;
  device_id = some 3;
  title = some "standup";
  status = status;
  consent_granted = true;
  audio_key = some "rec.wav";
  audio_format = some "wav";
  audio_size_bytes = some 4;
  duration_seconds = none;
  metadata_json = none;
  deleted_at = none;
  retracted_by = none;
  retraction_reason = none;
  started_at = 10;
  ended_at = none;
  created_at = 10;
  updated_at = 10;
}

-- Session 2 of user 8.
abbrev pub another_session : Session
another_session = record (session_in SessionStatus.idle) { id = 2; user_id = 8; audio_key = none }

abbrev pub artifact_in : ℕ → ArtifactStatus → Artifact
artifact_in id status = record {
  id = id;
  session_id = 1;
  job_id = some 20;
  artifact_type = "meeting_minutes";
  title = some (str "Standup");
  content = end;
  summary = none;
  status = status;
  assigned_reviewer_id = none;
  review_status = none;
  review_comment = none;
  published_at = none;
  created_at = 40;
  updated_at = 40;
}

-- The transcription job of session 1.
abbrev pub transcription : Job
transcription =
    new_job (IdempotencyKey.pipeline (some 1) "transcribe") (some 1) "transcribe" end 20 30

abbrev pub world_of : List Session → List Job → List Artifact → World
world_of sessions jobs artifacts =
    let d : Db = record {
      organizations = [];
      users = [];
      devices = [];
      sessions = sessions;
      jobs = jobs;
      workflow_events = [];
      artifacts = artifacts;
      audit_logs = [];
      deletion_jobs = [];
    } in
    record {
      db = d;
      saved = d;
      files = ("audio/rec.wav", 1 ∷ 2 ∷ 3 ∷ 4 ∷ []) ∷ [];
      fresh = 100;
      now = 1000;
    }

-- Session 1 in a status, beside session 2.
abbrev pub two_sessions : SessionStatus → World
two_sessions status = world_of (session_in status ∷ another_session ∷ []) [] []

pub two_sessions-IsValid : (status : SessionStatus) → IsValid (two_sessions status)
two_sessions-IsValid status = omega arith

abbrev pub heard : TranscriptResult
heard = record { transcript = "hello"; segments = no_items; language = "en" }

abbrev pub summary : Fields
summary = field "artifact_type" (str "meeting_minutes") end

abbrev pub agenda : Fields
agenda = field "agenda" (str "none") end

abbrev answer : Option Format → Fields
answer none = end
answer (some (written s)) = summary
answer (some (of_class t)) = agenda

-- Providers that answer.
abbrev pub answering : Providers
answering = record {
  transcribe = λ path. ok heard;
  complete = λ call. ok (answer call.schema);
  repr = λ v. "{}";
  audio_storage_path = "audio";
}
