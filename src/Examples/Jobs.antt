-- ===== src/Examples/Jobs.antt =====
-- The jobs and the worker, on small tables.
use ai_badge.Prelude.{
  ◌==◌, nat_eq, string_eq, select, ◌≡◌, refl, false, not, Option, none, some, [], ◌∷◌, arith, ◌≢◌,
  All,
}
use ai_badge.Model.{
  session_status_eq, job_status_eq, artifact_status_eq, SessionStatus, ArtifactStatus, opt_eq,
  key_eq, Job, DeletionJob, IdempotencyKey, raise, World, value_error, ok, store, IsValid,
  key_beq_iff, IsDb, JobStatus,
}
use ai_badge.Model.Json.{str, end, field}
use ai_badge.Orchestrator.Service.{new_job, create_jobs_for_session, ensure_next_job}
use ai_badge.Orchestrator.Jobs.{three_jobs, created_world, create_jobs_for_session-three}
use ai_badge.Orchestrator.Worker.{is_claimable, claim_job, start, execute_job, Handlers}
use ai_badge.Orchestrator.Worker.Claim.{Chosen, claim_job-Chosen}
use ai_badge.Orchestrator.Worker.Outcome.{saved_job, marked, execute_job-Failed, Failed}
use ai_badge.Sessions.Service.{new_deletion_job}
use ai_badge.Agents.Deletion.{is_of}
use ai_badge.Agents.Registry.{handlers}
use ai_badge.Agents.Polling.{three_turns}
use ai_badge.Agents.SagaRun.{queued, saga_jobs, three_turns-erases}
use ai_badge.Agents.Erasure.{audio_job}
use ai_badge.Examples.Data.{
  session_in, another_session, artifact_in, transcription, world_of, two_sessions, answering,
}

-- An urgent job behind an older one.
abbrev urgent : Job
urgent =
    record (new_job (IdempotencyKey.pipeline (some 1) "summarize") (some 1) "summarize" end 21 31) {
      priority = 5;
    }

abbrev two_jobs : World
two_jobs = world_of (session_in SessionStatus.processing ∷ []) (transcription ∷ urgent ∷ []) []

two_jobs-IsValid : IsValid two_jobs
two_jobs-IsValid = record { open_db = rows; saved_db = rows }
  where
    different : transcription.idempotency_key ≢ urgent.idempotency_key
    different e =
        let h = (key_beq_iff transcription.idempotency_key urgent.idempotency_key).1 e in cc

    rows : IsDb 100 two_jobs.db
    rows = record {
      sessions = omega arith;
      jobs = omega arith;
      artifacts = omega arith;
      deletion_jobs = omega arith;
      keys = ((different, tt), (tt, tt));
      retries = omega arith;
    }

claim_job-Chosen_example :
    (o : Option Job) × (claim_job (λ id. false) two_jobs ≡ (ok o, two_jobs))
    × Chosen two_jobs (λ id. false) o
claim_job-Chosen_example = claim_job-Chosen (λ id. false) two_jobs two_jobs-IsValid

create_jobs_for_session-three_example :
    create_jobs_for_session 1 (two_sessions SessionStatus.processing)
    ≡ (ok (three_jobs 1 100 1000), created_world 1 (two_sessions SessionStatus.processing))
create_jobs_for_session-three_example =
    create_jobs_for_session-three 1 (two_sessions SessionStatus.processing) refl refl refl

summarize_exists : ensure_next_job (some 1) "summarize" two_jobs ≡ (ok urgent, two_jobs)
unfolding ensure_next_job store
summarize_exists = refl

-- A registry with one handler, which always raises.
abbrev raising : Handlers
raising = record { job = λ t. some (λ j. raise (value_error "no luck")); deletion = λ t. none }

execute_job-Failed_example :
    (r : Job) × (saved_job 20 (execute_job raising transcription two_jobs) ≡ some r)
    × Failed 1000 (value_error "no luck") (start 1000 transcription) r
    × (is_claimable 5000 (λ id. false) r ≡ false)
    × ((execute_job raising transcription two_jobs).db.artifacts ≡ [])
    × ((execute_job raising transcription two_jobs).db.sessions
        ≡ session_in SessionStatus.processing ∷ [])
unfolding raise
execute_job-Failed_example =
    execute_job-Failed raising (λ j. raise (value_error "no luck")) transcription
      (start 1000 transcription) (value_error "no luck") two_jobs (marked transcription two_jobs)
      5000 (λ id. false) refl refl refl refl

-- Session 1 has been retracted: two deletion jobs, two artifacts and an artifact of session 2.
abbrev rows_job : DeletionJob
rows_job =
    new_deletion_job "delete_artifact_rows" 1
      (field "description" (str "Hard-delete all artifacts") end) 50 900

abbrev retracted : World
retracted =
    let w = world_of (session_in SessionStatus.retracting ∷ another_session ∷ []) [] (
      artifact_in 60 ArtifactStatus.published
      ∷ artifact_in 61 ArtifactStatus.published
      ∷ record (artifact_in 62 ArtifactStatus.published) { session_id = 2 }
      ∷ []) in
    record w { db = record w.db { deletion_jobs = rows_job ∷ audio_job 1 "rec.wav" 51 900 ∷ [] } }

-- The pipeline of session 1, with the providers that answer.
abbrev recorded : World
recorded = two_sessions SessionStatus.processing

abbrev erased : World
erased = three_turns (handlers answering) (queued (saga_jobs 1 "rec.wav" 50 900) retracted)

three_turns-erases_example :
    (select (is_of (some 1)) erased.db.artifacts ≡ [])
    × (select (λ a. not (is_of (some 1) a)) erased.db.artifacts
        ≡ record (artifact_in 62 ArtifactStatus.published) { session_id = 2 } ∷ [])
    × (select (λ f. f.0 == "audio/rec.wav") erased.files ≡ [])
    × (select (λ f. not (f.0 == "audio/rec.wav")) erased.files ≡ [])
    × All (λ j. j.status ≡ JobStatus.completed) erased.db.deletion_jobs
    × (erased.db.sessions ≡ retracted.sessions)
    × (erased.saved ≡ erased.db)
three_turns-erases_example = three_turns-erases answering 1 50 900 "rec.wav" retracted refl refl
