-- ===== src/Orchestrator/Worker.antt =====
-- backend/app/orchestrator/worker.py: the worker process. One poll cycle is one database session;
-- `locked` says which rows other workers hold, and `handlers` is the registry JOB_HANDLERS.
pub mod Steps
pub mod Keeps
pub mod Finality
pub mod Claim
pub mod Outcome
pub mod Loop
pub mod Shutdown
pub mod Outage
pub mod Heartbeat
use ai_badge.Prelude.{
  ltb, leb, if◌then◌else◌, ◌⊕◌, ◌==◌, nat_eq, string_eq, select, update_where, count_where,
  order_by, ℕ, ◌+◌, String, Bool, true, false, not, ◌&&◌, ◌||◌, Option, none, some, List, [], ◌∷◌,
}
use ai_badge.Model.{
  session_status_eq, job_status_eq, artifact_status_eq, JobStatus, opt_eq, key_eq, Job, DeletionJob,
  Action, pure, gets, modify, commit, rollback, message, elsewhere, World, Result, ok, err, set_job,
  set_deletion_job, ◌>>=◌, ◌>>◌,
}

abbrev pub job_timeout : ℕ
job_timeout = 120

-- JOB_HANDLERS, by job type for jobs and by resource type for deletion jobs.
pub record Handlers : Type 0 where
  pub job : String → Option (Job → Action Unit)
  pub deletion : String → Option (DeletionJob → Action Unit)

-- `Job.status == "running" and Job.started_at < cutoff`; NULL compares as false.
abbrev started_before : ℕ → Option ℕ → Bool
started_before now none = false
started_before now (some t) = ltb (t + job_timeout) now

abbrev pub is_timed_out : ℕ → Job → Bool
is_timed_out now j = j.status == JobStatus.running && started_before now j.started_at

abbrev pub release : Job → Job
release j = record j { status = JobStatus.pending; started_at = none }

unfoldable pub release_timed_out_jobs : Action ℕ
release_timed_out_jobs = do
  now ← gets (λ w. w.now)
  released ← gets (λ w. count_where (is_timed_out now) w.jobs)
  modify (λ d. record d { jobs = update_where (is_timed_out now) release d.jobs })
  pure released

-- `next_run_at IS NULL or next_run_at <= now`
abbrev pub is_due : ℕ → Option ℕ → Bool
is_due now none = true
is_due now (some t) = leb t now

abbrev pub is_claimable : ℕ → (ℕ → Bool) → Job → Bool
is_claimable now locked j =
    j.status == JobStatus.pending && (is_due now j.next_run_at && not (locked j.id))

-- `ORDER BY priority DESC, created_at ASC`; rows that tie keep the order of the table.
abbrev pub more_urgent : Job → Job → Bool
more_urgent a b =
    ltb b.priority a.priority || (a.priority == b.priority && ltb a.created_at b.created_at)

-- `LIMIT 1`
abbrev pub first {ℓ} : {A : Type ℓ} → List A → Option A
first [] = none
first (x ∷ xs) = some x

unfoldable pub claim_job : (ℕ → Bool) → Action (Option Job)
claim_job locked = do
  now ← gets (λ w. w.now)
  gets (λ w. first (order_by more_urgent (select (is_claimable now locked) w.jobs)))

abbrev pub start : ℕ → Job → Job
start now j = record j { status = JobStatus.running; started_at = some now }

-- What the heartbeat thread writes from a session of its own.
unfoldable pub send_heartbeat : ℕ → World → World
send_heartbeat jid w =
    elsewhere
      (λ d. record d {
        jobs =
            update_where (λ j. j.id == jid && j.status == JobStatus.running)
              (λ j. record j { started_at = some w.now }) d.jobs;
      })
      w

-- The row of a job whose type has no handler.
abbrev pub fail_unknown : ℕ → Job → Job
fail_unknown now j = record j {
  status = JobStatus.failed;
  completed_at = some now;
  error_message = some ("Unknown job_type: " ⊕ j.job_type);
}

-- The row of a job whose handler raised, if it still runs.
unfoldable pub fail_raised : ℕ → String → Job → Job
fail_raised now text j =
    if j.status == JobStatus.running
    then (let failed = record j { status = JobStatus.failed; error_message = some text } in
        if ltb j.retry_count j.max_retries
        then record failed { next_run_at = some now; retry_count = j.retry_count + 1 }
        else failed)
    else j

-- The `except` of _execute_job: what the handler wrote stays in the open transaction.
unfoldable pub settle_job : Job → Result Unit × World → World
unfolding fail_raised
settle_job j (ok _, w) = w
settle_job j (err e, w) = elsewhere (set_job j.id (fail_raised w.now (message e))) w

unfoldable pub run_handler : Option (Job → Action Unit) → Job → World → World
unfolding settle_job
run_handler none j w = elsewhere (set_job j.id (fail_unknown w.now)) w
run_handler (some handler) j w = settle_job j (handler j w)

-- `_execute_job`: marks the job as running, commits, and dispatches.
unfoldable pub execute_job : Handlers → Job → World → World
unfolding run_handler
execute_job handlers j w =
    let marked = (commit (record w { db = set_job j.id (start w.now) w.db })).1 in
    run_handler (handlers.job j.job_type) (start w.now j) marked

unfoldable pub process_claimed : Handlers → Option Job → Action Bool
unfolding execute_job
process_claimed handlers none w = (ok false, w)
process_claimed handlers (some j) w = (ok true, execute_job handlers j w)

unfoldable pub process_one : Handlers → (ℕ → Bool) → Action Bool
unfolding release_timed_out_jobs claim_job process_claimed
process_one handlers locked = do
  release_timed_out_jobs
  claimed ← claim_job locked
  process_claimed handlers claimed

abbrev pub is_due_deletion : ℕ → (ℕ → Bool) → DeletionJob → Bool
is_due_deletion now locked j =
    j.status == JobStatus.pending && (is_due now j.next_run_at && not (locked j.id))

abbrev pub older : DeletionJob → DeletionJob → Bool
older a b = ltb a.created_at b.created_at

abbrev pub fail_deletion : String → DeletionJob → DeletionJob
fail_deletion text j = record j { status = JobStatus.failed; error_message = some text }

-- The `except` of _process_deletion marks the job in the handler's own transaction and commits it.
unfoldable pub settle_deletion : DeletionJob → Result Unit × World → World
settle_deletion j (ok _, w) = w
settle_deletion j (err e, w) =
    (commit (record w { db = set_deletion_job j.id (fail_deletion (message e)) w.db })).1

unfoldable pub run_deletion : Option (DeletionJob → Action Unit) → DeletionJob → World → World
unfolding settle_deletion
run_deletion none j w =
    (commit (record w {
      db =
          set_deletion_job j.id
            (fail_deletion ("Unknown deletion_job resource_type: " ⊕ j.resource_type)) w.db;
    })).1
run_deletion (some handler) j w = settle_deletion j (handler j w)

abbrev pub run_started : DeletionJob → DeletionJob
run_started j = record j { status = JobStatus.running }

unfoldable pub process_found : Handlers → Option DeletionJob → Action Bool
unfolding run_deletion
process_found handlers none w = (ok false, w)
process_found handlers (some j) w =
    let marked = record w { db = set_deletion_job j.id run_started w.db } in
    (ok true, run_deletion (handlers.deletion j.resource_type) (run_started j) marked)

unfoldable pub process_deletion : Handlers → (ℕ → Bool) → Action Bool
unfolding process_found
process_deletion handlers locked = do
  now ← gets (λ w. w.now)
  found ← gets (λ w. first (order_by older (select (is_due_deletion now locked) w.deletion_jobs)))
  process_found handlers found

-- One turn of worker_loop: both queues in one session, which is then closed; what it has not
-- committed is rolled back. The two answers decide whether the loop sleeps.
unfoldable pub poll_cycle : Handlers → (ℕ → Bool) → World → World
unfolding process_one process_deletion
poll_cycle handlers locked w =
    rollback ((do process_one handlers locked; process_deletion handlers locked) w).1

-- What is outside of the worker between two turns: the clock, and the rows that others lock.
pub record Tick : Type 0 where
  pub time : ℕ
  pub locks : ℕ → Bool

-- `worker_loop` up to the shutdown flag, one turn for each tick.
unfoldable pub worker_loop : Handlers → List Tick → World → World
unfolding poll_cycle
worker_loop handlers [] w = w
worker_loop handlers (t ∷ ticks) w =
    worker_loop handlers ticks (poll_cycle handlers t.locks (record w { now = t.time }))
