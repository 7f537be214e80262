-- ===== src/Agents/Capture.antt =====
-- backend/app/agents/capture.py and transcribe_audio of backend/app/capture/service.py.
use ai_badge.Prelude.{◌⊕◌, decimal, String, some}
use ai_badge.Model.{
  JobStatus, Job, Action, gets, or_raise, commit, value_error, Result, find_session, write_job,
  ◌>>=◌, ◌>>◌,
}
use ai_badge.Model.Json.{str, arr, Fields, end, field}
use ai_badge.Storage.{path_join}
use ai_badge.Agents.Providers.{TranscriptResult, Providers}

-- `await` on a provider's answer.
unfoldable pub lift : {A : Type 0} → Result A → Action A
lift r w = (r, w)

unfoldable pub transcribe_audio : Providers → String → Action TranscriptResult
unfolding lift
transcribe_audio p audio_key = lift (p.transcribe (path_join p.audio_storage_path audio_key))

abbrev pub completed_with : Fields → Job → Job
completed_with output j = record j { output_payload = some output; status = JobStatus.completed }

abbrev pub transcript_payload : TranscriptResult → Fields
transcript_payload r =
    field "transcript" (str r.transcript)
      (field "segments" (arr r.segments) (field "language" (str r.language) end))

unfoldable pub handle_transcribe_job : Providers → Job → Action Unit
unfolding transcribe_audio
handle_transcribe_job p j = do
  session_id ← or_raise j.session_id (value_error "transcribe job has no session_id")
  found ← gets (find_session session_id)
  s ← or_raise found (value_error ("Session " ⊕ decimal session_id ⊕ " not found"))
  audio_key ←
      or_raise s.audio_key (value_error ("Session " ⊕ decimal session_id ⊕ " has no audio_key"))
  r ← transcribe_audio p audio_key
  write_job j.id (completed_with (transcript_payload r))
  commit
