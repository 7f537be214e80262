-- ===== src/Orchestrator/Worker/Keeps.antt =====
-- The invariant and the ledger of the database through the worker,
-- backend/app/orchestrator/worker.py, over what it asks of its handlers.
use ai_badge.Prelude.{
  string_eq, nat_eq, ◌==◌, OnSome, ℕ, String, refl, Bool, Option, none, some, arith,
}
use ai_badge.Model.{
  commit, Result, ok, err, session_status_eq, job_status_eq, artifact_status_eq, opt_eq, key_eq,
  Job, DeletionJob, Action, commit, World, IsValid, ◌>>◌,
}
use ai_badge.Model.Ledger.{ledger, Appends-refl, Recorded, Recorded-grow, Recorded-commit, Ledger}
use ai_badge.Model.Settled.{
  Settled, job_row-update_where, final-not_running, Scope, nothing, only, anything,
}
use ai_badge.Model.Keeps.{
  Keeps, Keeps-pure, Keeps-gets, Keeps-bind, Keeps-commit, Keeps-modify, IsDb-set_deletion_job,
  Appends-set_deletion_job, IsDb-update_jobs, Appends-update_jobs, keeps_rules,
}
use ai_badge.Orchestrator.Worker.{
  settle_deletion, is_timed_out, release, release_timed_out_jobs, claim_job, start, run_handler,
  execute_job, process_claimed, process_one, run_deletion, run_started, process_found,
  process_deletion, poll_cycle, Handlers,
}
use ai_badge.Orchestrator.Worker.Steps.{
  release-JobStep, start-JobStep, fail_unknown-JobStep, elsewhere-IsValid, elsewhere-Recorded,
  settle_job-IsValid, settle_job-Recorded, settle_deletion-IsValid, set_deletion_job-Recorded,
  settle_deletion-Recorded,
}

-- Every registered handler keeps the database valid, also where it raises.
pub record HandlersKeep (h : Handlers) : Type 0 where
  pub job : (t : String) → OnSome (λ f. (j : Job) → Keeps (only j.id) (f j)) (h.job t)
  pub deletion : (t : String) → OnSome (λ f. (j : DeletionJob) → Keeps nothing (f j)) (h.deletion t)

pub Keeps-release : {own : Scope} → Keeps own release_timed_out_jobs
unfolding release_timed_out_jobs
Keeps-release = Keeps-bind _ _ (Keeps-gets _) λ now. Keeps-bind _ _ (Keeps-gets _) λ n.
    Keeps-bind _ _
      (Keeps-modify _ (IsDb-update_jobs (is_timed_out now) release release-JobStep)
        (Appends-update_jobs (is_timed_out now) release release-JobStep)
        λ k row d out fin h.
          let running = final-not_running row fin in
          job_row-update_where k row (is_timed_out now) release (λ j. refl) (ground arith) d h)
      λ _. Keeps-pure _

Keeps-claim : {own : Scope} (locked : ℕ → Bool) → Keeps own (claim_job locked)
unfolding claim_job
Keeps-claim locked = search keeps_rules

module _ (handlers : Handlers) (sound : HandlersKeep handlers) where
  run_handler-IsValid :
      (o : Option (Job → Action Unit)) (j : Job) (w : World)
      → OnSome (λ f. (k : Job) → Keeps (only k.id) (f k)) o
      → IsValid w
      → IsValid (run_handler o j w)
  unfolding run_handler
  run_handler-IsValid none j w e h = elsewhere-IsValid j.id _ (fail_unknown-JobStep w.now) w h
  run_handler-IsValid (some f) j w e h = settle_job-IsValid j (f j w) ((e j).at w h)

  run_handler-Recorded :
      (o : Option (Job → Action Unit)) (j : Job) (l : Ledger) (w : World)
      → OnSome (λ f. (k : Job) → Keeps (only k.id) (f k)) o
      → Recorded l w
      → Recorded l (run_handler o j w)
  unfolding run_handler
  run_handler-Recorded none j l w e h = elsewhere-Recorded _ _ (fail_unknown-JobStep w.now) l w h
  run_handler-Recorded (some f) j l w e h = settle_job-Recorded j l (f j w) ((e j).records l w h)

  execute_job-IsValid : (j : Job) (w : World) → IsValid w → IsValid (execute_job handlers j w)
  unfolding execute_job
  execute_job-IsValid j w h =
      let d =
        IsDb-update_jobs (λ k. k.id == j.id) (start w.now) (start-JobStep w.now) w.fresh w.db
          h.open_db in
      run_handler-IsValid (handlers.job j.job_type) (start w.now j) _ (sound.job j.job_type)
        ((Keeps-commit {own = nothing}).at _ (record { open_db = d; saved_db = h.saved_db }))

  execute_job-Recorded :
      (j : Job) (l : Ledger) (w : World) → Recorded l w → Recorded l (execute_job handlers j w)
  unfolding execute_job commit
  execute_job-Recorded j l w h =
      run_handler-Recorded (handlers.job j.job_type) (start w.now j) l _ (sound.job j.job_type) (
        Recorded-commit l _ _ (
          Recorded-grow l (ledger w.saved) (ledger w.db) h _
            (Appends-update_jobs (λ k. k.id == j.id) (start w.now) (start-JobStep w.now) w.db)))

  Keeps-process_claimed : (o : Option Job) → Keeps anything (process_claimed handlers o)
  unfolding process_claimed
  Keeps-process_claimed none = record {
    at = λ w h. h;
    records = λ l w h. h;
    spares = λ k row w out h. h;
  }
  Keeps-process_claimed (some j) = record {
    at = λ w h. execute_job-IsValid j w h;
    records = λ l w h. execute_job-Recorded j l w h;
    spares = λ k row w out h. absurd (ground arith);
  }

  Keeps-process_one : (locked : ℕ → Bool) → Keeps anything (process_one handlers locked)
  unfolding process_one
  Keeps-process_one locked =
      Keeps-bind _ _ Keeps-release
        λ _. Keeps-bind _ _ (Keeps-claim locked) λ o. Keeps-process_claimed o

  run_deletion-IsValid :
      (o : Option (DeletionJob → Action Unit)) (j : DeletionJob) (w : World)
      → OnSome (λ f. (k : DeletionJob) → Keeps nothing (f k)) o
      → IsValid w
      → IsValid (run_deletion o j w)
  unfolding run_deletion
  run_deletion-IsValid none j w e h =
      let d = IsDb-set_deletion_job j.id _ (λ k. refl) w.fresh w.db h.open_db in
      (Keeps-commit {own = nothing}).at _ (record { open_db = d; saved_db = h.saved_db })
  run_deletion-IsValid (some f) j w e h = settle_deletion-IsValid j (f j w) ((e j).at w h)

  run_deletion-Recorded :
      (o : Option (DeletionJob → Action Unit)) (j : DeletionJob) (l : Ledger) (w : World)
      → OnSome (λ f. (k : DeletionJob) → Keeps nothing (f k)) o
      → Recorded l w
      → Recorded l (run_deletion o j w)
  unfolding run_deletion
  run_deletion-Recorded none j l w e h = set_deletion_job-Recorded j.id _ (λ k. refl) l w h
  run_deletion-Recorded (some f) j l w e h =
      settle_deletion-Recorded j l (f j w) ((e j).records l w h)

  run_deletion-Settled :
      (o : Option (DeletionJob → Action Unit)) (j : DeletionJob) (k : ℕ) (row : Job) (w : World)
      → OnSome (λ f. (k : DeletionJob) → Keeps nothing (f k)) o
      → Settled k row w
      → Settled k row (run_deletion o j w)
  unfolding run_deletion settle_deletion commit
  run_deletion-Settled none j k row w e h = (h.0, h.1, h.1)
  run_deletion-Settled (some f) j k row w e h = settled (f j w) ((e j).spares k row w refl h)
    where
      settled : (r : Result Unit × World) → Settled k row r.1 → Settled k row (settle_deletion j r)
      settled (ok _, v) h = h
      settled (err x, v) h = (h.0, h.1, h.1)

  Keeps-process_found :
      {own : Scope} (o : Option DeletionJob) → Keeps own (process_found handlers o)
  unfolding process_found
  Keeps-process_found none = record {
    at = λ w h. h;
    records = λ l w h. h;
    spares = λ k row w out h. h;
  }
  Keeps-process_found (some j) = record {
    at = λ w h.
        run_deletion-IsValid (handlers.deletion j.resource_type) (run_started j) _
          (sound.deletion j.resource_type)
          (record {
            open_db = IsDb-set_deletion_job j.id run_started (λ k. refl) w.fresh w.db h.open_db;
            saved_db = h.saved_db;
          });
    records = λ l w h.
        run_deletion-Recorded (handlers.deletion j.resource_type) (run_started j) l _
          (sound.deletion j.resource_type)
          (Recorded-grow l (ledger w.saved) (ledger w.db) h _
            (Appends-set_deletion_job j.id run_started (λ k. refl) w.db));
    spares = λ k row w out h.
        run_deletion-Settled (handlers.deletion j.resource_type) (run_started j) k row _
          (sound.deletion j.resource_type) h;
  }

  pub Keeps-process_deletion :
      {own : Scope} (locked : ℕ → Bool) → Keeps own (process_deletion handlers locked)
  unfolding process_deletion
  Keeps-process_deletion locked =
      Keeps-bind _ _ (Keeps-gets _) λ now. Keeps-bind _ _ (Keeps-gets _) λ o. Keeps-process_found o

  Keeps-both :
      (locked : ℕ → Bool)
      → Keeps anything (do process_one handlers locked; process_deletion handlers locked)
  Keeps-both locked = Keeps-bind _ _ (Keeps-process_one locked) (λ _. Keeps-process_deletion locked)

  pub poll_cycle-IsValid :
      (locked : ℕ → Bool) (w : World) → IsValid w → IsValid (poll_cycle handlers locked w)
  unfolding poll_cycle
  poll_cycle-IsValid locked w h =
      let v = (Keeps-both locked).at w h in record { open_db = v.saved_db; saved_db = v.saved_db }

  pub poll_cycle-Recorded :
      (locked : ℕ → Bool) (l : Ledger) (w : World)
      → Recorded l w
      → Recorded l (poll_cycle handlers locked w)
  unfolding poll_cycle
  poll_cycle-Recorded locked l w h = (((Keeps-both locked).records l w h).0, Appends-refl _)
