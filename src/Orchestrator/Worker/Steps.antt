-- ===== src/Orchestrator/Worker/Steps.antt =====
-- What the worker itself writes, backend/app/orchestrator/worker.py: it keeps the database valid and
-- takes nothing from its ledger.
use ai_badge.Prelude.{
  string_eq, nat_eq, ◌==◌, update_where, ℕ, String, ◌≡◌, refl, Bool, some, arith,
}
use ai_badge.Model.{
  session_status_eq, job_status_eq, artifact_status_eq, opt_eq, key_eq, Job, DeletionJob, commit,
  message, elsewhere, World, Result, ok, err, set_job, set_deletion_job, IsValid,
}
use ai_badge.Model.Ledger.{
  erasing, ledger, Recorded, Recorded-grow, Recorded-commit, Recorded-same, Ledger,
}
use ai_badge.Model.Settled.{nothing}
use ai_badge.Model.Keeps.{
  Keeps-commit, IsDb-set_deletion_job, Appends-set_deletion_job, JobStep, IsDb-update_jobs,
  ledger-update_jobs,
}
use ai_badge.Orchestrator.Worker.{
  release, start, send_heartbeat, fail_unknown, fail_raised, settle_job, fail_deletion,
  settle_deletion,
}

pub release-JobStep : JobStep release
release-JobStep = record { id = λ j. refl; key = λ j. refl; retries = λ j h. h }

pub start-JobStep : (now : ℕ) → JobStep (start now)
start-JobStep now = record { id = λ j. refl; key = λ j. refl; retries = λ j h. h }

pub fail_unknown-JobStep : (now : ℕ) → JobStep (fail_unknown now)
fail_unknown-JobStep now = record { id = λ j. refl; key = λ j. refl; retries = λ j h. h }

fail_raised-JobStep : (now : ℕ) (text : String) → JobStep (fail_raised now text)
unfolding fail_raised
fail_raised-JobStep now text = record {
  id = λ j. ground arith;
  key = λ j. ground arith;
  retries = λ j h. ground arith;
}

pub elsewhere-IsValid :
    (jid : ℕ) (f : Job → Job)
    → JobStep f
    → (w : World) → IsValid w
    → IsValid (elsewhere (set_job jid f) w)
elsewhere-IsValid jid f k w h = record {
  open_db = IsDb-update_jobs (λ j. j.id == jid) f k w.fresh w.db h.open_db;
  saved_db = IsDb-update_jobs (λ j. j.id == jid) f k w.fresh w.saved h.saved_db;
}

pub elsewhere-Recorded :
    (p : Job → Bool) (f : Job → Job)
    → JobStep f
    → (l : Ledger) (w : World) → Recorded l w
    → Recorded l (elsewhere (λ d. record d { jobs = update_where p f d.jobs }) w)
elsewhere-Recorded p f k l w h =
    Recorded-same l (ledger w.saved) (ledger w.db) h _ _ (ledger-update_jobs p f k w.saved)
      (ledger-update_jobs p f k w.db)

beat-JobStep : (now : ℕ) → JobStep (λ j. record j { started_at = some now })
beat-JobStep now = record { id = λ j. refl; key = λ j. refl; retries = λ j h. h }

-- A heartbeat, at any time.
pub send_heartbeat-IsValid : (jid : ℕ) (w : World) → IsValid w → IsValid (send_heartbeat jid w)
unfolding send_heartbeat
send_heartbeat-IsValid jid w h = record {
  open_db = IsDb-update_jobs _ _ (beat-JobStep w.now) w.fresh w.db h.open_db;
  saved_db = IsDb-update_jobs _ _ (beat-JobStep w.now) w.fresh w.saved h.saved_db;
}

pub send_heartbeat-Recorded :
    (jid : ℕ) (l : Ledger) (w : World) → Recorded l w → Recorded l (send_heartbeat jid w)
unfolding send_heartbeat
send_heartbeat-Recorded jid l w h = elsewhere-Recorded _ _ (beat-JobStep w.now) l w h

pub settle_job-IsValid :
    (j : Job) (r : Result Unit × World) → IsValid r.1 → IsValid (settle_job j r)
unfolding settle_job
settle_job-IsValid j (ok _, w) h = h
settle_job-IsValid j (err e, w) h =
    elsewhere-IsValid j.id _ (fail_raised-JobStep w.now (message e)) w h

pub settle_job-Recorded :
    (j : Job) (l : Ledger) (r : Result Unit × World) → Recorded l r.1 → Recorded l (settle_job j r)
unfolding settle_job
settle_job-Recorded j l (ok _, w) h = h
settle_job-Recorded j l (err e, w) h =
    elsewhere-Recorded _ _ (fail_raised-JobStep w.now (message e)) l w h

pub settle_deletion-IsValid :
    (j : DeletionJob) (r : Result Unit × World) → IsValid r.1 → IsValid (settle_deletion j r)
unfolding settle_deletion
settle_deletion-IsValid j (ok _, w) h = h
settle_deletion-IsValid j (err e, w) h =
    let d =
      IsDb-set_deletion_job j.id (fail_deletion (message e)) (λ k. refl) w.fresh w.db h.open_db in
    (Keeps-commit {own = nothing}).at _ (record { open_db = d; saved_db = h.saved_db })

-- A deletion job is changed, and the change committed.
pub set_deletion_job-Recorded :
    (jid : ℕ) (f : DeletionJob → DeletionJob)
    → ((j : DeletionJob) → erasing (f j) ≡ erasing j)
    → (l : Ledger) (w : World) → Recorded l w
    → Recorded l (commit (record w { db = set_deletion_job jid f w.db })).1
unfolding commit
set_deletion_job-Recorded jid f same l w h =
    Recorded-commit l _ _ (
      Recorded-grow l (ledger w.saved) (ledger w.db) h _ (Appends-set_deletion_job jid f same w.db))

pub settle_deletion-Recorded :
    (j : DeletionJob) (l : Ledger) (r : Result Unit × World)
    → Recorded l r.1
    → Recorded l (settle_deletion j r)
unfolding settle_deletion
settle_deletion-Recorded j l (ok _, w) h = h
settle_deletion-Recorded j l (err e, w) h =
    set_deletion_job-Recorded j.id (fail_deletion (message e)) (λ k. refl) l w h
