-- ===== src/Orchestrator/Retries.antt =====
-- transition_job and retry_job of backend/app/orchestrator/service.py: how often a job is tried.
use ai_badge.Prelude.{
  ltb, Bool-cases, length, ℕ, ◌+◌, ◌≤◌, min, ◌≡◌, refl, inl, inr, none, List, [], ◌∷◌, arith,
}
use ai_badge.Model.{JobStatus, Job}
use ai_badge.Orchestrator.Service.{transition_row}

-- `n` times failed and set back to pending, at the times of the list.
abbrev pub retried : List ℕ → Job → Job
retried [] j = j
retried (now ∷ times) j = retried times (
    transition_row now JobStatus.pending none none
      (transition_row now JobStatus.failed none none j))

-- After any number of failures, each set back to pending, a job has noted one retry for each
-- failure, but never more than it may; the bound and the job's key are what they were.
pub retried-bounded :
    (times : List ℕ) (j : Job)
    → j.retry_count ≤ j.max_retries
    → ((retried times j).retry_count ≡ min (j.retry_count + length times) j.max_retries)
      × ((retried times j).max_retries ≡ j.max_retries)
      × ((retried times j).idempotency_key ≡ j.idempotency_key)
unfolding transition_row
retried-bounded [] j h = (omega arith, refl, refl)
retried-bounded (now ∷ times) j h =
    let next =
      transition_row now JobStatus.pending none none
        (transition_row now JobStatus.failed none none j) in
    let bound : next.retry_count ≤ next.max_retries = ground arith in
    let ih = retried-bounded times next bound in
    elim (Bool-cases (ltb j.retry_count j.max_retries)) [
      | inl e ↦ ground (arith, ih)
      | inr e ↦ ground (arith, ih)
    ]
