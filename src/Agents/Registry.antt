-- ===== src/Agents/Registry.antt =====
-- The registry that the `register_handler` decorators of backend/app/agents fill.
use ai_badge.Prelude.{if◌then◌else◌, ◌==◌, nat_eq, string_eq, String, Option, none, some}
use ai_badge.Model.{
  session_status_eq, job_status_eq, artifact_status_eq, opt_eq, key_eq, Job, DeletionJob, Action,
}
use ai_badge.Orchestrator.Worker.{Handlers}
use ai_badge.Agents.Providers.{Providers}
use ai_badge.Agents.Capture.{handle_transcribe_job}
use ai_badge.Agents.Distiller.{handle_summarize_job, handle_extract_artifact_job}
use ai_badge.Agents.Integration.{handle_publish_job}
use ai_badge.Agents.Deletion.{handle_delete_artifacts, handle_delete_audio, handle_delete_feishu}

unfoldable pub job_handler : Providers → String → Option (Job → Action Unit)
job_handler p t =
    if t == "transcribe"
    then some (handle_transcribe_job p)
    else if t == "summarize"
    then some (handle_summarize_job p)
    else if t == "extract_artifact"
    then some (handle_extract_artifact_job p)
    else if t == "publish"
    then some handle_publish_job
    else none

unfoldable pub deletion_handler : Providers → String → Option (DeletionJob → Action Unit)
deletion_handler p t =
    if t == "delete_artifact_rows"
    then some handle_delete_artifacts
    else if t == "delete_local_audio"
    then some (handle_delete_audio p)
    else if t == "delete_feishu_docs"
    then some handle_delete_feishu
    else none

abbrev pub handlers : Providers → Handlers
handlers p = record { job = job_handler p; deletion = deletion_handler p }
