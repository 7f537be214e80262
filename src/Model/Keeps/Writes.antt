-- ===== src/Model/Keeps/Writes.antt =====
-- Changes of rows that keep the database valid, take nothing from its ledger and spare other jobs.
use ai_badge.Prelude.{
  string_eq, nat_eq, ◌==◌, update_where, All-update_where, Distinct-update_where, ℕ, ◌≤◌, ◌≡◌, ap,
  Bool, arith,
}
use ai_badge.Model.Rows.{opt_eq, key_eq, Session, Job, Artifact, DeletionJob}
use ai_badge.Model.Effects.{Db}
use ai_badge.Model.Store.{
  set_session, set_job, set_artifact, set_deletion_job, write_session, write_job, write_artifact,
  write_deletion_job,
}
use ai_badge.Model.Ledger.{
  owned, keyed, erasing, ledger, map-update_where, Extends-update_where, Appends-refl,
  Appends-sessions, Appends-jobs, Appends-deletion_jobs, Appends,
}
use ai_badge.Model.Validity.{IsTable-update_where, IsDb}
use ai_badge.Model.Keeps.Actions.{Keeps-modify, Keeps}
use ai_badge.Model.Settled.{job_row-update_where, job_row-apart, Scope, only}

pub IsDb-set_session :
    (sid : ℕ) (f : Session → Session)
    → ((s : Session) → (f s).id ≡ s.id)
    → (bound : ℕ) (d : Db) → IsDb bound d
    → IsDb bound (set_session sid f d)
IsDb-set_session sid f keep bound d h = record {
  sessions = IsTable-update_where _ bound (λ s. s.id == sid) f d.sessions keep h.sessions;
  jobs = h.jobs;
  artifacts = h.artifacts;
  deletion_jobs = h.deletion_jobs;
  keys = h.keys;
  retries = h.retries;
}

pub Keeps-write_session :
    {own : Scope} (sid : ℕ) (f : Session → Session)
    → ((s : Session) → (f s).id ≡ s.id)
    → ((s : Session) → owned (f s) ≡ owned s)
    → Keeps own (write_session sid f)
unfolding write_session
Keeps-write_session sid f keep owner =
    Keeps-modify (set_session sid f) (IsDb-set_session sid f keep)
      (λ d. Appends-sessions d _ (Extends-update_where owned _ f owner d.sessions))
      λ k row d out fin h. h

pub Keeps-write_artifact :
    {own : Scope} (aid : ℕ) (f : Artifact → Artifact)
    → ((a : Artifact) → (f a).id ≡ a.id)
    → Keeps own (write_artifact aid f)
unfolding write_artifact
Keeps-write_artifact aid f keep =
    Keeps-modify (set_artifact aid f)
      (λ bound d h. record {
        sessions = h.sessions;
        jobs = h.jobs;
        artifacts = IsTable-update_where _ bound (λ a. a.id == aid) f d.artifacts keep h.artifacts;
        deletion_jobs = h.deletion_jobs;
        keys = h.keys;
        retries = h.retries;
      })
      (λ d. Appends-refl (ledger d)) λ k row d out fin h. h

pub IsDb-set_deletion_job :
    (jid : ℕ) (f : DeletionJob → DeletionJob)
    → ((j : DeletionJob) → (f j).id ≡ j.id)
    → (bound : ℕ) (d : Db) → IsDb bound d
    → IsDb bound (set_deletion_job jid f d)
IsDb-set_deletion_job jid f keep bound d h = record {
  sessions = h.sessions;
  jobs = h.jobs;
  artifacts = h.artifacts;
  deletion_jobs =
      IsTable-update_where _ bound (λ j. j.id == jid) f d.deletion_jobs keep h.deletion_jobs;
  keys = h.keys;
  retries = h.retries;
}

pub Appends-set_deletion_job :
    (jid : ℕ) (f : DeletionJob → DeletionJob)
    → ((j : DeletionJob) → erasing (f j) ≡ erasing j)
    → (d : Db) → Appends (ledger d) (ledger (set_deletion_job jid f d))
Appends-set_deletion_job jid f same d =
    Appends-deletion_jobs d _ (Extends-update_where erasing _ f same d.deletion_jobs)

pub Keeps-write_deletion_job :
    {own : Scope} (jid : ℕ) (f : DeletionJob → DeletionJob)
    → ((j : DeletionJob) → (f j).id ≡ j.id)
    → ((j : DeletionJob) → erasing (f j) ≡ erasing j)
    → Keeps own (write_deletion_job jid f)
unfolding write_deletion_job
Keeps-write_deletion_job jid f keep same =
    Keeps-modify (set_deletion_job jid f) (IsDb-set_deletion_job jid f keep)
      (Appends-set_deletion_job jid f same) λ k row d out fin h. h

-- A change of a job that leaves its identity alone and its retries within bounds.
pub record JobStep (f : Job → Job) : Type 0 where
  pub id : (j : Job) → (f j).id ≡ j.id
  pub key : (j : Job) → (f j).idempotency_key ≡ j.idempotency_key
  pub retries : (j : Job) → j.retry_count ≤ j.max_retries → (f j).retry_count ≤ (f j).max_retries

JobStep-keyed : (f : Job → Job) → JobStep f → (j : Job) → keyed (f j) ≡ keyed j
JobStep-keyed f k j = ground (arith, k.id j, k.key j)

pub IsDb-update_jobs :
    (p : Job → Bool) (f : Job → Job)
    → JobStep f
    → (bound : ℕ) (d : Db) → IsDb bound d
    → IsDb bound (record d { jobs = update_where p f d.jobs })
IsDb-update_jobs p f k bound d h = record {
  sessions = h.sessions;
  jobs = IsTable-update_where _ bound p f d.jobs k.id h.jobs;
  artifacts = h.artifacts;
  deletion_jobs = h.deletion_jobs;
  keys = Distinct-update_where (λ j. j.idempotency_key) p f k.key d.jobs h.keys;
  retries = All-update_where (λ j. j.retry_count ≤ j.max_retries) p f k.retries d.jobs h.retries;
}

-- The identities and the keys of the jobs are all that the ledger has of them.
pub ledger-update_jobs :
    (p : Job → Bool) (f : Job → Job)
    → JobStep f
    → (d : Db) → ledger (record d { jobs = update_where p f d.jobs }) ≡ ledger d
ledger-update_jobs p f k d =
    ap (λ keys. record (ledger d) { jobs = keys })
      (map-update_where keyed p f (λ j. JobStep-keyed f k j) d.jobs)

pub Appends-update_jobs :
    (p : Job → Bool) (f : Job → Job)
    → JobStep f
    → (d : Db) → Appends (ledger d) (ledger (record d { jobs = update_where p f d.jobs }))
Appends-update_jobs p f k d =
    Appends-jobs d (update_where p f d.jobs)
      (Extends-update_where keyed p f (λ j. JobStep-keyed f k j) d.jobs)

pub Keeps-write_job : (jid : ℕ) (f : Job → Job) → JobStep f → Keeps (only jid) (write_job jid f)
unfolding write_job
Keeps-write_job jid f k =
    Keeps-modify (set_job jid f) (IsDb-update_jobs (λ j. j.id == jid) f k)
      (Appends-update_jobs (λ j. j.id == jid) f k)
      λ i row d out fin h.
        job_row-update_where i row (λ j. j.id == jid) f k.id (job_row-apart jid i row d out h) d h
