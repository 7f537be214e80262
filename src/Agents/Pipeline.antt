-- ===== src/Agents/Pipeline.antt =====
-- The pipeline of a recorded session: its three jobs, executed by the worker one after the other.
use ai_badge.Prelude.{
  string_eq, nat_eq, beq_refl, ℕ, suc, String, ◌≡◌, some, List, [], ◌∷◌, arith, ◌++◌, nat_beq, true,
  false,
}
use ai_badge.Model.{
  session_status_eq, job_status_eq, artifact_status_eq, opt_eq, key_eq, Session, Job, commit, World,
  ok, find_session, store, SessionStatus, Artifact, set_session,
}
use ai_badge.Model.Json.{get_or, Json, str, Fields, end, field}
use ai_badge.Orchestrator.Jobs.{pipeline_row}
use ai_badge.Orchestrator.Worker.{start, execute_job}
use ai_badge.Agents.Prompts.{summarize, extract}
use ai_badge.Storage.{path_join}
use ai_badge.Agents.Providers.{TranscriptResult, Providers}
use ai_badge.Agents.Capture.{completed_with, transcript_payload, handle_transcribe_job}
use ai_badge.Agents.Distiller.{
  get_transcript, get_summarize_result, handle_summarize_job, schema_type, new_artifact,
  store_artifact, handle_extract_artifact_job,
}
use ai_badge.Agents.Registry.{job_handler, handlers}

-- A committed world with these jobs.
abbrev pub settled : List Job → World → World
settled jobs w = let d = record w.db { jobs = jobs } in record w { db = d; saved = d }

module _ (p : Providers) (sid id t : ℕ) (s : Session) (key : String) (r : TranscriptResult) where
  abbrev pub transcribing : Job
  transcribing = pipeline_row sid "transcribe" id t

  abbrev pub summarizing : Job
  summarizing = pipeline_row sid "summarize" (suc id) t

  abbrev pub extracting : Job
  extracting = pipeline_row sid "extract_artifact" (suc (suc id)) t

  abbrev pub transcribed : ℕ → Job
  transcribed now = completed_with (transcript_payload r) (start now transcribing)

  pub transcribe-turn :
      (w : World)
      → find_session sid w ≡ some s
      → s.audio_key ≡ some key
      → p.transcribe (path_join p.audio_storage_path key) ≡ ok r
      → execute_job
          (handlers p)
          transcribing
          (settled (transcribing ∷ summarizing ∷ extracting ∷ []) w)
        ≡ settled (transcribed w.now ∷ summarizing ∷ extracting ∷ []) w
  unfolding execute_job job_handler handle_transcribe_job commit store
  transcribe-turn w found audio answer = ground (arith, beq_refl id)

  abbrev pub summarized : Fields → ℕ → Job
  summarized summary now = completed_with summary (start now summarizing)

  pub summarize-turn :
      (summary : Fields) (n : ℕ) (w : World)
      → summarize p (str r.transcript) ≡ ok summary
      → execute_job
          (handlers p)
          summarizing
          (settled (transcribed n ∷ summarizing ∷ extracting ∷ []) w)
        ≡ settled (transcribed n ∷ summarized summary w.now ∷ extracting ∷ []) w
  unfolding execute_job job_handler handle_summarize_job get_transcript commit store
  summarize-turn summary n w answer =
      let first : nat_beq id (suc id) ≡ false = ground arith in
      let last : nat_beq (suc (suc id)) (suc id) ≡ false = ground arith in
      let own : nat_beq (suc id) (suc id) ≡ true = ground arith in
      rw (first, last, own) (ground (arith, beq_refl sid, first, last, own, answer))

  abbrev pub title_of : Fields → Json
  title_of summary = get_or "title" (str "Untitled") summary

  abbrev pub extracted : Fields → String → ℕ → Job
  extracted summary kind now =
      completed_with (field "artifact_type" (str kind) (field "title" (title_of summary) end))
        (start now extracting)

  -- The artifact that the pipeline distils.
  abbrev pub distilled : Fields → String → Fields → ℕ → ℕ → Artifact
  distilled summary kind content aid now =
      new_artifact sid (suc (suc id)) kind (title_of summary) content
        (get_or "summary" (str "") summary) aid now

  abbrev pub reviewable : Fields → String → Fields → World → World
  reviewable summary kind content w =
      let d = set_session sid (λ x. record x { status = SessionStatus.needs_review }) w.db in
      record w {
        db = record d {
          artifacts = w.artifacts ++ distilled summary kind content w.fresh w.now ∷ [];
        };
        fresh = suc w.fresh;
      }

  pub extract-turn :
      (summary content : Fields) (kind : String) (n k : ℕ) (w : World)
      → schema_type (get_or "artifact_type" (str "meeting_minutes") summary) ≡ some kind
      → extract p (str r.transcript) kind (title_of summary) ≡ ok content
      → execute_job
          (handlers p)
          extracting
          (settled (transcribed n ∷ summarized summary k ∷ extracting ∷ []) w)
        ≡ settled
            (transcribed n ∷ summarized summary k ∷ extracted summary kind w.now ∷ [])
            (reviewable summary kind content w)
  unfolding execute_job job_handler handle_extract_artifact_job get_transcript get_summarize_result
      store_artifact commit store
  extract-turn summary content kind n k w known answer =
      let first : nat_beq id (suc (suc id)) ≡ false = ground arith in
      let second : nat_beq (suc id) (suc (suc id)) ≡ false = ground arith in
      let own : nat_beq (suc (suc id)) (suc (suc id)) ≡ true = ground arith in
      rw (first, second, own) (ground (arith, beq_refl sid, first, second, own, known, answer))
