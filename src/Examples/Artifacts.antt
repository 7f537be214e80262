-- ===== src/Examples/Artifacts.antt =====
-- Review, publication and extraction of the artifacts of session 1.
use ai_badge.Prelude.{◌≡◌, refl, some, [], ◌∷◌}
use ai_badge.Model.{
  SessionStatus, JobStatus, ArtifactStatus, Job, Artifact, World, integrity_error, ok, err,
  find_session, set_artifact,
}
use ai_badge.Model.Json.{str, end, field}
use ai_badge.Artifacts.Service.{reviewed, reject_artifact, request_publish}
use ai_badge.Artifacts.Review.{
  moved, reject_artifact-retries, publish_row, request_publish-queues, request_publish-taken,
}
use ai_badge.Examples.Data.{session_in, another_session, artifact_in, transcription, world_of}

abbrev reviewing : World
reviewing =
    world_of (session_in SessionStatus.needs_review ∷ another_session ∷ []) (transcription ∷ []) (
      artifact_in 60 ArtifactStatus.pending_review
      ∷ artifact_in 61 ArtifactStatus.pending_review
      ∷ [])

-- The other artifact is approved already.
abbrev nearly_done : World
nearly_done =
    world_of (session_in SessionStatus.needs_review ∷ another_session ∷ []) (transcription ∷ [])
      (artifact_in 60 ArtifactStatus.pending_review ∷ artifact_in 61 ArtifactStatus.approved ∷ [])

abbrev draft : Artifact
draft = artifact_in 60 ArtifactStatus.pending_review

reject_artifact-retries_example :
    (j : Job) × (v : World) × (reject_artifact draft 7 "too short" reviewing ≡ (ok j, v))
    × (v.db.jobs ≡ transcription ∷ j ∷ [])
    × (j.job_type ≡ "extract_artifact")
    × (j.status ≡ JobStatus.pending)
    × (j.input_payload ≡ field "retry_reason" (str "too short") end)
    × (v.db.artifacts
        ≡ (set_artifact 60
            (reviewed ArtifactStatus.rejected "rejected" "too short" 1000)
            reviewing.db).artifacts)
    × (v.db.sessions ≡ reviewing.sessions)
reject_artifact-retries_example = reject_artifact-retries draft 7 "too short" reviewing refl

abbrev ready : Artifact
ready = artifact_in 60 ArtifactStatus.approved

abbrev approved : World
approved =
    world_of (session_in SessionStatus.approved ∷ another_session ∷ []) (transcription ∷ [])
      (ready ∷ [])

request_publish-queues_example :
    (v : World) × (request_publish ready approved ≡ (ok (publish_row ready 100 1000), v))
    × (v.db.jobs ≡ transcription ∷ publish_row ready 100 1000 ∷ [])
    × (find_session 1 v
        ≡ some (moved SessionStatus.publishing 1000 (session_in SessionStatus.approved)))
    × (v.db.artifacts ≡ ready ∷ [])
request_publish-queues_example =
    request_publish-queues ready (session_in SessionStatus.approved) approved refl refl refl refl

-- Publishing failed once, and its job is still in the table.
abbrev failed_once : World
failed_once =
    world_of (session_in SessionStatus.publish_failed ∷ []) (publish_row ready 30 900 ∷ [])
      (ready ∷ [])

request_publish-taken_example :
    request_publish ready failed_once ≡ (err integrity_error, failed_once)
request_publish-taken_example =
    request_publish-taken ready (publish_row ready 30 900) failed_once refl refl

-- A retry of the extraction, when the session has long been published.
abbrev published : World
published = world_of (session_in SessionStatus.published ∷ []) (transcription ∷ []) (ready ∷ [])
