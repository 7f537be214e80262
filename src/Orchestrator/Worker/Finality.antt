-- ===== src/Orchestrator/Worker/Finality.antt =====
-- Jobs that are completed or failed, through the worker of backend/app/orchestrator/worker.py: it
-- writes to the job that it claimed and to those that run, and never to one of these.
use ai_badge.Prelude.{
  Bool-cases, string_eq, nat_eq, ◌==◌, update_where, OnSome, ℕ, ◌≡◌, refl, sym, ◌∙◌, subst, inl,
  inr, Bool, true, false, Option, none, some, arith,
}
use ai_badge.Model.{
  session_status_eq, job_status_eq, artifact_status_eq, opt_eq, key_eq, Job, Action, pure, gets,
  modify, continue, ◌>>=◌, commit, message, elsewhere, World, Result, ok, err, IsValid,
}
use ai_badge.Model.Settled.{
  is_outside, job_row, Settled, job_row-update_where, job_row-apart, final-not_running,
  final-not_pending, nothing, only,
}
use ai_badge.Model.Keeps.{Keeps, spares-continue}
use ai_badge.Orchestrator.Worker.{
  release_timed_out_jobs, start, send_heartbeat, fail_unknown, fail_raised, settle_job, run_handler,
  execute_job, process_claimed, process_one, process_deletion, poll_cycle, Handlers,
}
use ai_badge.Orchestrator.Worker.Claim.{Chosen, claim_job-Chosen}
use ai_badge.Orchestrator.Worker.Keeps.{Keeps-release, Keeps-process_deletion, HandlersKeep}

module _ (k : ℕ) (row : Job) where
  elsewhere-Settled :
      (p : Job → Bool) (f : Job → Job)
      → ((j : Job) → (f j).id ≡ j.id)
      → p row ≡ false
      → (w : World) → Settled k row w
      → Settled k row (elsewhere (λ d. record d { jobs = update_where p f d.jobs }) w)
  elsewhere-Settled p f keep other w h = (
    h.0,
    job_row-update_where k row p f keep other w.db h.1,
    job_row-update_where k row p f keep other w.saved h.2,
  )

  pub send_heartbeat-Settled :
      (jid : ℕ) (w : World) → Settled k row w → Settled k row (send_heartbeat jid w)
  unfolding send_heartbeat
  send_heartbeat-Settled jid w h =
      let stopped = final-not_running row h.0 in
      elsewhere-Settled _ _ (λ j. refl) (ground (arith, stopped)) w h

  settle_job-Settled :
      (j : Job) (r : Result Unit × World)
      → is_outside (only j.id) k ≡ true
      → Settled k row r.1
      → Settled k row (settle_job j r)
  unfolding settle_job fail_raised
  settle_job-Settled j (ok _, w) out h = h
  settle_job-Settled j (err e, w) out h =
      elsewhere-Settled (λ i. i.id == j.id) (fail_raised w.now (message e)) (λ i. ground arith)
        (job_row-apart j.id k row w.db out h.1) w h

  run_handler-Settled :
      (o : Option (Job → Action Unit)) (j : Job) (w : World)
      → OnSome (λ f. (i : Job) → Keeps (only i.id) (f i)) o
      → is_outside (only j.id) k ≡ true
      → Settled k row w
      → Settled k row (run_handler o j w)
  unfolding run_handler
  run_handler-Settled none j w e out h =
      elsewhere-Settled (λ i. i.id == j.id) (fail_unknown w.now) (λ i. refl)
        (job_row-apart j.id k row w.db out h.1) w h
  run_handler-Settled (some f) j w e out h =
      settle_job-Settled j (f j w) out ((e j).spares k row w out h)

  module _ (handlers : Handlers) (sound : HandlersKeep handlers) where
    execute_job-Settled :
        (j : Job) (w : World)
        → is_outside (only j.id) k ≡ true
        → Settled k row w
        → Settled k row (execute_job handlers j w)
    unfolding execute_job commit
    execute_job-Settled j w out h =
        let marked =
          job_row-update_where k row (λ i. i.id == j.id) (start w.now) (λ i. refl)
            (job_row-apart j.id k row w.db out h.1) w.db h.1 in
        run_handler-Settled (handlers.job j.job_type) (start w.now j) _ (sound.job j.job_type) out
          (h.0, marked, marked)

    -- What is claimed is pending, and so another job.
    claimed-is_outside :
        (locked : ℕ → Bool) (j : Job) (w : World)
        → Chosen w locked (some j)
        → Settled k row w
        → is_outside (only j.id) k ≡ true
    claimed-is_outside locked j w c h = elim (Bool-cases (j.id == k)) [
      | inl e ↦
          let waits = final-not_pending row h.0 in
          let at_k : j.id ≡ k = ground (arith, e) in
          let found : job_row k w.db ≡ some j = subst (λ i. job_row i w.db ≡ some j) at_k c.0 in
          let same : some j ≡ some row = sym found ∙ h.1 in
          absurd (ground (arith, same, waits, c.1))
      | inr e ↦ ground (arith, e)
    ]

    process_claimed-Settled :
        (locked : ℕ → Bool) (o : Option Job) (w : World)
        → Chosen w locked o
        → Settled k row w
        → Settled k row (process_claimed handlers o w).1
    unfolding process_claimed
    process_claimed-Settled locked none w c h = h
    process_claimed-Settled locked (some j) w c h =
        execute_job-Settled j w (claimed-is_outside locked j w c h) h

    process_one-Settled :
        (locked : ℕ → Bool) (w : World)
        → IsValid w
        → Settled k row w
        → Settled k row (process_one handlers locked w).1
    unfolding process_one release_timed_out_jobs ◌>>=◌ gets modify pure
    process_one-Settled locked w v h =
        let w' = (release_timed_out_jobs w).1 in
        let (o, e, c) = claim_job-Chosen locked w' ((Keeps-release {own = nothing}).at w v) in
        subst
          (λ (r : Result (Option Job) × World).
            Settled k row (continue r.0 (process_claimed handlers) r.1).1)
          (sym e)
          (process_claimed-Settled locked o w' c
            ((Keeps-release {own = nothing}).spares k row w refl h))

    pub poll_cycle-Settled :
        (locked : ℕ → Bool) (w : World)
        → IsValid w
        → Settled k row w
        → Settled k row (poll_cycle handlers locked w)
    unfolding poll_cycle ◌>>=◌
    poll_cycle-Settled locked w v h =
        let one = process_one-Settled locked w v h in
        let both =
          spares-continue {own = nothing} (process_one handlers locked w).0
            (λ _. process_deletion handlers locked) k row (process_one handlers locked w).1 refl
            (λ _. Keeps-process_deletion handlers sound locked) one in
        (both.0, both.2, both.2)
