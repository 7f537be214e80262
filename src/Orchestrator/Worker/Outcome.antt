-- ===== src/Orchestrator/Worker/Outcome.antt =====
-- _execute_job of backend/app/orchestrator/worker.py where a handler raises.
use ai_badge.Prelude.{
  ltb, if◌then◌else◌, ◌==◌, nat_eq, string_eq, find, find-update_where, ℕ, ◌+◌, String, ◌≡◌, Bool,
  false, Option, some, arith, find-true, ◌∙◌,
}
use ai_badge.Model.{
  session_status_eq, job_status_eq, artifact_status_eq, JobStatus, opt_eq, key_eq, Job, Action,
  commit, message, World, Error, err, set_job,
}
use ai_badge.Orchestrator.Worker.{is_claimable, start, fail_raised, execute_job, Handlers}

-- The committed row of a job.
abbrev pub saved_job : ℕ → World → Option Job
saved_job jid w = find (λ j. j.id == jid) w.saved.jobs

-- The world in which a claimed job's handler starts: the job is marked, and that is committed.
abbrev pub marked : Job → World → World
marked j w = let d = set_job j.id (start w.now) w.db in record w { db = d; saved = d }

-- What is committed for a job that raised: it is failed, with the text of the error, and one more
-- retry is noted, due at once, if there is one left.
pub record Failed (now : ℕ) (e : Error) (before after : Job) : Type 0 where
  pub status : after.status ≡ JobStatus.failed
  pub text : after.error_message ≡ some (message e)
  pub retries : after.retry_count ≡ (
      if ltb before.retry_count before.max_retries
      then before.retry_count + 1
      else before.retry_count)
  pub schedule :
      after.next_run_at
      ≡ (if ltb before.retry_count before.max_retries then some now else before.next_run_at)
  pub identity : after.idempotency_key ≡ before.idempotency_key

fail_raised-Failed :
    (now : ℕ) (e : Error) (k : Job)
    → k.status ≡ JobStatus.running
    → Failed now e k (fail_raised now (message e) k)
unfolding fail_raised
fail_raised-Failed now e k r = record {
  status = ground arith;
  text = ground arith;
  retries = ground arith;
  schedule = ground arith;
  identity = ground arith;
}

pub fail_raised-not_claimable :
    (now t : ℕ) (locked : ℕ → Bool) (text : String) (k : Job)
    → k.status ≡ JobStatus.running
    → is_claimable t locked (fail_raised now text k) ≡ false
unfolding fail_raised
fail_raised-not_claimable now t locked text k r = ground arith

-- A handler that raises, while the committed row of its job is running, leaves that row failed,
-- with the text of the error, and with one more retry, due at once, if one was left; no worker
-- claims that row at any later time, whatever is locked; and the artifacts and sessions that the
-- handler wrote are still in the open transaction.
pub execute_job-Failed :
    (handlers : Handlers) (f : Job → Action Unit) (j k : Job) (e : Error) (w v : World) (t : ℕ)
    (locked : ℕ → Bool)
    → handlers.job j.job_type ≡ some f
    → f (start w.now j) (marked j w) ≡ (err e, v)
    → saved_job j.id v ≡ some k
    → k.status ≡ JobStatus.running
    → (r : Job) × (saved_job j.id (execute_job handlers j w) ≡ some r)
      × Failed v.now e k r
      × (is_claimable t locked r ≡ false)
      × ((execute_job handlers j w).db.artifacts ≡ v.db.artifacts)
      × ((execute_job handlers j w).db.sessions ≡ v.db.sessions)
unfolding execute_job commit
execute_job-Failed handlers f j k e w v t locked h run found r =
    let row =
      find-update_where (λ x. x.id == j.id) (λ x. x.id == j.id) (fail_raised v.now (message e))
        (λ x. unfold fail_raised in ground arith) v.saved.jobs in
    let hit = find-true (λ x. x.id == j.id) v.saved.jobs k found in
    (
      fail_raised v.now (message e) k,
      rw h (rw run (row ∙ rw found (rw hit))),
      fail_raised-Failed v.now e k r,
      fail_raised-not_claimable v.now t locked (message e) k r,
      rw h (rw run),
      rw h (rw run),
    )
