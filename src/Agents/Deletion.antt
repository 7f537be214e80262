-- ===== src/Agents/Deletion.antt =====
-- backend/app/agents/deletion.py: the three steps of the retraction saga.
use ai_badge.Prelude.{
  if◌then◌else◌, ◌==◌, nat_eq, string_eq, delete_where, ℕ, String, Bool, false, Option, none, some,
}
use ai_badge.Model.{
  session_status_eq, job_status_eq, artifact_status_eq, JobStatus, opt_eq, key_eq, Artifact,
  DeletionJob, Action, modify, commit, ok, write_deletion_job, ◌>>◌,
}
use ai_badge.Model.Json.{get_or, Json, null, str, Fields}
use ai_badge.Storage.{path_join}
use ai_badge.Agents.Providers.{Providers}

abbrev pub done : DeletionJob → DeletionJob
done j = record j { status = JobStatus.completed }

-- `Artifact.session_id == job.session_id`; no row equals NULL.
abbrev pub is_of : Option ℕ → Artifact → Bool
is_of none a = false
is_of (some sid) a = a.session_id == sid

unfoldable pub handle_delete_artifacts : DeletionJob → Action Unit
handle_delete_artifacts j = do
  modify (λ d. record d { artifacts = delete_where (is_of j.session_id) d.artifacts })
  write_deletion_job j.id done
  commit

-- `(job.cascade_targets or {}).get("audio_key")`, if it is a text and not empty.
abbrev pub audio_key_of : Option Fields → Option String
audio_key_of none = none
audio_key_of (some targets) = as_key (get_or "audio_key" null targets)
  where
    as_key : Json → Option String
    as_key (str k) = if k == "" then none else some k
    as_key _ = none

-- `os.remove(path)`, if there is such a file.
unfoldable pub remove_file : Providers → Option String → Action Unit
remove_file p none w = (ok tt, w)
remove_file p (some key) w =
    let path = path_join p.audio_storage_path key in
    (ok tt, record w { files = delete_where (λ f. f.0 == path) w.files })

unfoldable pub handle_delete_audio : Providers → DeletionJob → Action Unit
unfolding remove_file
handle_delete_audio p j = do
  remove_file p (audio_key_of j.cascade_targets)
  write_deletion_job j.id done
  commit

unfoldable pub handle_delete_feishu : DeletionJob → Action Unit
handle_delete_feishu j = do write_deletion_job j.id done; commit
