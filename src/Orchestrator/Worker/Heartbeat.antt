-- ===== src/Orchestrator/Worker/Heartbeat.antt =====
-- The heartbeat thread of backend/app/orchestrator/worker.py against the release of jobs that seem
-- to have been abandoned.
use ai_badge.Prelude.{
  if◌then◌else◌, string_eq, nat_eq, ◌==◌, find-true, find-update_where, ℕ, ◌+◌, ◌≤◌, ◌≡◌, refl, ◌∙◌,
  Bool, true, false, not, ◌&&◌, some, List, [], ◌∷◌, ◌++◌, arith,
}
use ai_badge.Model.{
  session_status_eq, job_status_eq, artifact_status_eq, JobStatus, opt_eq, key_eq, Job, World,
  find_job, store,
}
use ai_badge.Orchestrator.Worker.{
  job_timeout, is_timed_out, release, release_timed_out_jobs, is_claimable, send_heartbeat,
}
use ai_badge.Orchestrator.Worker.Loop.{beat, heartbeat_thread, Beat}

send_heartbeat-row :
    (jid : ℕ) (j : Job) (w : World)
    → find_job jid w ≡ some j
    → j.status ≡ JobStatus.running
    → find_job jid (send_heartbeat jid w) ≡ some (record j { started_at = some w.now })
unfolding send_heartbeat
send_heartbeat-row jid j w found runs =
    find-update_where (λ x. x.id == jid) _ (λ x. record x { started_at = some w.now }) (λ x. refl)
      w.jobs
    ∙ rw found (rw (find-true (λ x. x.id == jid) w.jobs j found, runs) refl)

-- A turn of the thread leaves the job running.
beat-row :
    (jid : ℕ) (b : Beat) (j : Job) (w : World)
    → find_job jid w ≡ some j
    → j.status ≡ JobStatus.running
    → (k : Job) × (find_job jid (beat jid b w) ≡ some k) × (k.status ≡ JobStatus.running)
beat-row jid b j w found runs = go (not b.stop_after && b.reachable)
  where
    woken : World
    woken = record w { now = b.time }

    go :
        (c : Bool)
        → (k : Job) × (find_job jid (if c then send_heartbeat jid woken else woken) ≡ some k)
          × (k.status ≡ JobStatus.running)
    go true =
        (record j { started_at = some b.time }, send_heartbeat-row jid j woken found runs, runs)
    go false = (j, found, runs)

abbrev pub goes_on : List Beat → Bool
goes_on [] = true
goes_on (b ∷ beats) = not b.stop_before && goes_on beats

heartbeat_thread-row :
    (jid : ℕ) (beats : List Beat) (b : Beat) (j : Job) (w : World)
    → find_job jid w ≡ some j
    → j.status ≡ JobStatus.running
    → goes_on (beats ++ b ∷ []) ≡ true
    → b.stop_after ≡ false
    → b.reachable ≡ true
    → (k : Job) × (find_job jid (heartbeat_thread jid (beats ++ b ∷ []) w) ≡ some k)
      × (k.status ≡ JobStatus.running)
      × (k.started_at ≡ some b.time)
unfolding heartbeat_thread
heartbeat_thread-row jid [] b j w found runs on awake up = (
  record j { started_at = some b.time },
  ground (arith, send_heartbeat-row jid j (record w { now = b.time })),
  runs,
  refl,
)
heartbeat_thread-row jid (c ∷ beats) b j w found runs on awake up =
    let (k, found', runs') = beat-row jid c j w found runs in
    let (l, last, still, time) =
      heartbeat_thread-row jid beats b k (beat jid c w) found' runs' (ground arith) awake up in
    (l, ground arith, still, time)

released-row :
    (jid now : ℕ) (j : Job) (v : World)
    → find_job jid v ≡ some j
    → is_timed_out now j ≡ false
    → find_job jid (release_timed_out_jobs (record v { now = now })).1 ≡ some j
unfolding release_timed_out_jobs store
released-row jid now j v found fresh =
    find-update_where (λ x. x.id == jid) (is_timed_out now) release (λ x. refl) v.jobs
    ∙ rw found (rw fresh refl)

not_timed_out :
    (now time : ℕ) (k : Job)
    → now ≤ time + job_timeout
    → k.started_at ≡ some time
    → is_timed_out now k ≡ false
not_timed_out now time k soon started = rw started (ground arith)

not_claimable :
    (now : ℕ) (locked : ℕ → Bool) (k : Job)
    → k.status ≡ JobStatus.running
    → is_claimable now locked k ≡ false
not_claimable now locked k runs = rw runs refl

-- A running job whose thread goes on, was not stopped while it slept and could write, is safe for
-- the 120 seconds after that beat, whatever the beats before it did: a turn of any worker within
-- them finds the job running, started at the beat, does not release it, and may not claim it.
pub heartbeat_thread-kept :
    (jid : ℕ) (beats : List Beat) (b : Beat) (j : Job) (w : World) (now : ℕ) (locked : ℕ → Bool)
    → find_job jid w ≡ some j
    → j.status ≡ JobStatus.running
    → goes_on (beats ++ b ∷ []) ≡ true
    → b.stop_after ≡ false
    → b.reachable ≡ true
    → now ≤ b.time + job_timeout
    → (k : Job) × (find_job jid
          (release_timed_out_jobs
            (record (heartbeat_thread jid (beats ++ b ∷ []) w) { now = now })).1
        ≡ some k)
      × (k.status ≡ JobStatus.running)
      × (k.started_at ≡ some b.time)
      × (is_claimable now locked k ≡ false)
heartbeat_thread-kept jid beats b j w now locked found runs on awake up soon =
    let (k, last, still, time) = heartbeat_thread-row jid beats b j w found runs on awake up in
    (
      k,
      released-row jid now k (heartbeat_thread jid (beats ++ b ∷ []) w) last
          (not_timed_out now b.time k soon time),
      still,
      time,
      not_claimable now locked k still,
    )
