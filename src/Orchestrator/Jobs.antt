-- ===== src/Orchestrator/Jobs.antt =====
-- create_jobs_for_session and ensure_next_job of backend/app/orchestrator/service.py: which jobs
-- they create, and when they refuse.
use ai_badge.Prelude.{
  ◌==◌, nat_eq, string_eq, find, ℕ, suc, String, ◌≡◌, Option, none, some, List, [], ◌∷◌, ◌++◌,
  arith, select, find-append, refl, Bool, Option-cases, beq_refl, select-append, All-select, ap,
  ◌∙◌, inl, inr, true,
}
use mathlib.Core.List.{append_assoc}
use ai_badge.Model.{
  session_status_eq, job_status_eq, artifact_status_eq, opt_eq, key_eq, Job, IdempotencyKey, World,
  integrity_error, ok, err, store, WorkflowEvent, ◌>>=◌, key_beq_iff,
}
use ai_badge.Model.Json.{end}
use ai_badge.Orchestrator.Service.{
  new_job, pipeline_job, add_pipeline_jobs, create_jobs_for_session, job_event, ensure_next_job,
}

abbrev pub job_with_key : IdempotencyKey → World → Option Job
job_with_key key w = find (λ k. k.idempotency_key == key) w.jobs

-- The job that the pipeline has for a session and a type, as created.
abbrev pipeline_of : Option ℕ → String → ℕ → ℕ → Job
pipeline_of sid t id now = new_job (IdempotencyKey.pipeline sid t) sid t end id now

abbrev pub pipeline_row : ℕ → String → ℕ → ℕ → Job
pipeline_row sid t id now = new_job (IdempotencyKey.pipeline (some sid) t) (some sid) t end id now

abbrev pub three_jobs : ℕ → ℕ → ℕ → List Job
three_jobs sid id now =
    pipeline_row sid "transcribe" id now
    ∷ pipeline_row sid "summarize" (suc id) now
    ∷ pipeline_row sid "extract_artifact" (suc (suc id)) now
    ∷ []

pub pipeline_job-taken :
    (sid : Option ℕ) (t : String) (j : Job) (w : World)
    → job_with_key (IdempotencyKey.pipeline sid t) w ≡ some j
    → pipeline_job sid t w ≡ (err integrity_error, w)
unfolding pipeline_job store
pipeline_job-taken sid t j w h = rw h

pipeline_job-free :
    (sid : ℕ) (t : String) (w : World)
    → job_with_key (IdempotencyKey.pipeline (some sid) t) w ≡ none
    → pipeline_job (some sid) t w ≡ (
      ok (pipeline_row sid t w.fresh w.now),
      record w {
        db = record w.db { jobs = w.jobs ++ pipeline_row sid t w.fresh w.now ∷ [] };
        fresh = suc w.fresh;
      },
    )
unfolding pipeline_job store
pipeline_job-free sid t w h = rw h

-- A session of which a transcription job is known gets no jobs again: the unique key refuses the
-- first of them.
pub create_jobs_for_session-taken :
    (sid : ℕ) (j : Job) (w : World)
    → job_with_key (IdempotencyKey.pipeline (some sid) "transcribe") w ≡ some j
    → create_jobs_for_session sid w ≡ (err integrity_error, w)
unfolding create_jobs_for_session add_pipeline_jobs store
create_jobs_for_session-taken sid j w h =
    ground (arith, pipeline_job-taken (some sid) "transcribe" j w h)

append_three :
    {A : Type 0} (xs : List A) (a b c : A)
    → ((xs ++ a ∷ []) ++ b ∷ []) ++ c ∷ [] ≡ xs ++ a ∷ b ∷ c ∷ []
append_three xs a b c = simp append_assoc

abbrev pub three_events : ℕ → ℕ → List WorkflowEvent
three_events id now =
    job_event id "job_created" (suc (suc (suc id))) now
    ∷ job_event (suc id) "job_created" (suc (suc (suc (suc id)))) now
    ∷ job_event (suc (suc id)) "job_created" (suc (suc (suc (suc (suc id))))) now
    ∷ []

-- The world behind the creation of a session's jobs.
abbrev pub created_world : ℕ → World → World
created_world sid w = record w {
  db = record w.db {
    jobs = w.jobs ++ three_jobs sid w.fresh w.now;
    workflow_events = w.workflow_events ++ three_events w.fresh w.now;
  };
  fresh = suc (suc (suc (suc (suc (suc w.fresh)))));
}

-- A session without jobs of the pipeline gets exactly the three, pending and in the order of the
-- pipeline, each under its own unique key, and one event for each.
pub create_jobs_for_session-three :
    (sid : ℕ) (w : World)
    → job_with_key (IdempotencyKey.pipeline (some sid) "transcribe") w ≡ none
    → job_with_key (IdempotencyKey.pipeline (some sid) "summarize") w ≡ none
    → job_with_key (IdempotencyKey.pipeline (some sid) "extract_artifact") w ≡ none
    → create_jobs_for_session sid w ≡ (ok (three_jobs sid w.fresh w.now), created_world sid w)
unfolding create_jobs_for_session store
create_jobs_for_session-three sid w h k l =
    let a = pipeline_row sid "transcribe" w.fresh w.now in
    let b = pipeline_row sid "summarize" (suc w.fresh) w.now in
    let c = pipeline_row sid "extract_artifact" (suc (suc w.fresh)) w.now in
    let second =
      find-append (λ j. j.idempotency_key == IdempotencyKey.pipeline (some sid) "summarize") w.jobs
        (a ∷ []) in
    let third =
      find-append (λ j. j.idempotency_key == IdempotencyKey.pipeline (some sid) "extract_artifact")
        (w.jobs ++ a ∷ []) (b ∷ []) in
    let third' =
      find-append (λ j. j.idempotency_key == IdempotencyKey.pipeline (some sid) "extract_artifact")
        w.jobs (a ∷ []) in
    let jobs = append_three w.jobs a b c in
    let events =
      append_three w.workflow_events
        (job_event w.fresh "job_created" (suc (suc (suc w.fresh))) w.now)
        (job_event (suc w.fresh) "job_created" (suc (suc (suc (suc w.fresh)))) w.now)
        (job_event (suc (suc w.fresh)) "job_created" (suc (suc (suc (suc (suc w.fresh))))) w.now) in
    ground (arith, h, k, l, second, third, third', jobs, events)

create_jobs_for_session-second :
    (sid : ℕ) (j : Job) (w : World)
    → job_with_key (IdempotencyKey.pipeline (some sid) "transcribe") w ≡ none
    → job_with_key (IdempotencyKey.pipeline (some sid) "summarize") w ≡ some j
    → (create_jobs_for_session sid w).0 ≡ err integrity_error
unfolding create_jobs_for_session store
create_jobs_for_session-second sid j w h k =
    let a = pipeline_row sid "transcribe" w.fresh w.now in
    let second =
      find-append (λ j. j.idempotency_key == IdempotencyKey.pipeline (some sid) "summarize") w.jobs
        (a ∷ []) in
    ground (arith, h, k, second)

create_jobs_for_session-third :
    (sid : ℕ) (j : Job) (w : World)
    → job_with_key (IdempotencyKey.pipeline (some sid) "transcribe") w ≡ none
    → job_with_key (IdempotencyKey.pipeline (some sid) "summarize") w ≡ none
    → job_with_key (IdempotencyKey.pipeline (some sid) "extract_artifact") w ≡ some j
    → (create_jobs_for_session sid w).0 ≡ err integrity_error
unfolding create_jobs_for_session store
create_jobs_for_session-third sid j w h k l =
    let a = pipeline_row sid "transcribe" w.fresh w.now in
    let b = pipeline_row sid "summarize" (suc w.fresh) w.now in
    let second =
      find-append (λ j. j.idempotency_key == IdempotencyKey.pipeline (some sid) "summarize") w.jobs
        (a ∷ []) in
    let third =
      find-append (λ j. j.idempotency_key == IdempotencyKey.pipeline (some sid) "extract_artifact")
        (w.jobs ++ a ∷ []) (b ∷ []) in
    let third' =
      find-append (λ j. j.idempotency_key == IdempotencyKey.pipeline (some sid) "extract_artifact")
        w.jobs (a ∷ []) in
    ground (arith, h, k, l, second, third, third')

found_behind :
    (sid : ℕ) (w : World)
    → job_with_key (IdempotencyKey.pipeline (some sid) "transcribe") w ≡ none
    → job_with_key (IdempotencyKey.pipeline (some sid) "transcribe") (created_world sid w)
      ≡ some (pipeline_row sid "transcribe" w.fresh w.now)
found_behind sid w h =
    let all =
      find-append (λ j. j.idempotency_key == IdempotencyKey.pipeline (some sid) "transcribe") w.jobs
        (three_jobs sid w.fresh w.now) in
    all ∙ rw h (rw (beq_refl sid))

-- Asking twice for the jobs of a session never succeeds, whatever is in the database.
pub create_jobs_for_session-twice :
    (sid : ℕ) (w : World)
    → ((create_jobs_for_session sid >>= λ _. create_jobs_for_session sid) w).0 ≡ err integrity_error
unfolding ◌>>=◌
create_jobs_for_session-twice sid w =
    elim (Option-cases (job_with_key (IdempotencyKey.pipeline (some sid) "transcribe") w)) [
      | inl h ↦
          elim (Option-cases (job_with_key (IdempotencyKey.pipeline (some sid) "summarize") w)) [
            | inl k ↦
                elim (Option-cases
                  (job_with_key (IdempotencyKey.pipeline (some sid) "extract_artifact") w)) [
                    | inl l ↦ rw (create_jobs_for_session-three sid w h k l) (
                        ap (λ r. r.0)
                          (create_jobs_for_session-taken sid
                            (pipeline_row sid "transcribe" w.fresh w.now) (created_world sid w)
                            (found_behind sid w h)))
                    | inr (j, l) ↦ ground (arith, create_jobs_for_session-third sid j w h k l)
                  ]
            | inr (j, k) ↦ ground (arith, create_jobs_for_session-second sid j w h k)
          ]
      | inr (j, h) ↦ ground (arith, create_jobs_for_session-taken sid j w h)
    ]

-- The next job of a chain is created once: asking again gives the same job, which has the key of the
-- session and the type, and changes nothing.
pub ensure_next_job-again :
    (sid : Option ℕ) (t : String) (j : Job) (w v : World)
    → ensure_next_job sid t w ≡ (ok j, v)
    → (ensure_next_job sid t v ≡ (ok j, v)) × (j.idempotency_key ≡ IdempotencyKey.pipeline sid t)
unfolding ensure_next_job store
ensure_next_job-again sid t j w v h = split (select q w.jobs) refl
  where
    q : Job → Bool
    q = λ k. k.idempotency_key == IdempotencyKey.pipeline sid t

    split :
        (rows : List Job)
        → select q w.jobs ≡ rows
        → (ensure_next_job sid t v ≡ (ok j, v))
          × (j.idempotency_key ≡ IdempotencyKey.pipeline sid t)
    split [] e = elim (Option-cases (find q w.jobs)) [
      | inl f ↦
          let self : q (pipeline_of sid t w.fresh w.now) ≡ true =
            beq_refl (IdempotencyKey.pipeline sid t) in
          let all = select-append q w.jobs (pipeline_of sid t w.fresh w.now ∷ []) in
          ground (arith, all, self)
      | inr (x, f) ↦ absurd (ground arith)
    ]
    split (x ∷ []) e = (
      ground arith,
      ground (
        arith,
        All-select q w.jobs,
        key_beq_iff x.idempotency_key (IdempotencyKey.pipeline sid t),
      ),
    )
    split (x ∷ y ∷ rest) e = absurd (ground arith)
