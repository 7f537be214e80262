-- ===== src/Model/Insert.antt =====
-- The invariant and the ledger of the database through insertions, a rule for each table.
use ai_badge.Prelude.{
  ◌==◌, nat_eq, string_eq, find, All, All-append, Distinct-append, find-none, ℕ, ◌≤◌, ◌≡◌, refl,
  ◌≢◌, false, Option, none, some, List, [], ◌∷◌, arith,
}
use ai_badge.Model.Rows.{
  opt_eq, key_eq, Session, Job, WorkflowEvent, Artifact, AuditLog, DeletionJob, IdempotencyKey,
}
use ai_badge.Model.Effects.{World}
use ai_badge.Model.Store.{
  refresh_session, refresh_artifact, add_session, add_event, add_artifact, add_audit_log,
  add_deletion_job, insert_job, add_job,
}
use ai_badge.Model.Validity.{IsTable-append, IsDb-suc, IsValid}
use ai_badge.Model.Ledger.{
  owned, keyed, erasing, ledger, Extends-append, Extends-map_append, Appends-refl,
  Appends-audit_logs, Appends-workflow_events, Appends-sessions, Appends-jobs,
  Appends-deletion_jobs, Recorded, Recorded-grow, Ledger,
}
use ai_badge.Model.Keeps.{Keeps, keeps_rules}
use ai_badge.Model.Settled.{Settled, job_row-append, Scope}

pub Keeps-add_event : {own : Scope} (row : ℕ → ℕ → WorkflowEvent) → Keeps own (add_event row)
unfolding add_event
Keeps-add_event row = record {
  at = λ w h.
      let open' = IsDb-suc w.fresh w.db h.open_db in
      record {
        open_db = record {
          sessions = open'.sessions;
          jobs = open'.jobs;
          artifacts = open'.artifacts;
          deletion_jobs = open'.deletion_jobs;
          keys = open'.keys;
          retries = open'.retries;
        };
        saved_db = IsDb-suc w.fresh w.saved h.saved_db;
      };
  records = λ l w h.
      Recorded-grow l _ _ h _ (Appends-workflow_events w.db _ (Extends-append w.workflow_events _));
  spares = λ k row w out h. h;
}

pub Keeps-add_audit_log : {own : Scope} (row : ℕ → ℕ → AuditLog) → Keeps own (add_audit_log row)
unfolding add_audit_log
Keeps-add_audit_log row = record {
  at = λ w h.
      let open' = IsDb-suc w.fresh w.db h.open_db in
      record {
        open_db = record {
          sessions = open'.sessions;
          jobs = open'.jobs;
          artifacts = open'.artifacts;
          deletion_jobs = open'.deletion_jobs;
          keys = open'.keys;
          retries = open'.retries;
        };
        saved_db = IsDb-suc w.fresh w.saved h.saved_db;
      };
  records =
      λ l w h. Recorded-grow l _ _ h _ (Appends-audit_logs w.db _ (Extends-append w.audit_logs _));
  spares = λ k row w out h. h;
}

pub Keeps-add_session :
    {own : Scope} (row : ℕ → ℕ → Session)
    → ((id now : ℕ) → (row id now).id ≡ id)
    → Keeps own (add_session row)
unfolding add_session
Keeps-add_session row e = record {
  at = λ w h.
      let open' = IsDb-suc w.fresh w.db h.open_db in
      record {
        open_db = record {
          sessions =
              IsTable-append _ w.fresh w.sessions (row w.fresh w.now) (e w.fresh w.now)
                h.open_db.sessions;
          jobs = open'.jobs;
          artifacts = open'.artifacts;
          deletion_jobs = open'.deletion_jobs;
          keys = open'.keys;
          retries = open'.retries;
        };
        saved_db = IsDb-suc w.fresh w.saved h.saved_db;
      };
  records = λ l w h.
      Recorded-grow l _ _ h _ (Appends-sessions w.db _ (Extends-map_append owned w.sessions _));
  spares = λ k row w out h. h;
}

pub Keeps-add_artifact :
    {own : Scope} (row : ℕ → ℕ → Artifact)
    → ((id now : ℕ) → (row id now).id ≡ id)
    → Keeps own (add_artifact row)
unfolding add_artifact
Keeps-add_artifact row e = record {
  at = λ w h.
      let open' = IsDb-suc w.fresh w.db h.open_db in
      record {
        open_db = record {
          sessions = open'.sessions;
          jobs = open'.jobs;
          artifacts =
              IsTable-append _ w.fresh w.artifacts (row w.fresh w.now) (e w.fresh w.now)
                h.open_db.artifacts;
          deletion_jobs = open'.deletion_jobs;
          keys = open'.keys;
          retries = open'.retries;
        };
        saved_db = IsDb-suc w.fresh w.saved h.saved_db;
      };
  records = λ l w h. Recorded-grow l _ _ h _ (Appends-refl (ledger w.db));
  spares = λ k row w out h. h;
}

pub Keeps-add_deletion_job :
    {own : Scope} (row : ℕ → ℕ → DeletionJob)
    → ((id now : ℕ) → (row id now).id ≡ id)
    → Keeps own (add_deletion_job row)
unfolding add_deletion_job
Keeps-add_deletion_job row e = record {
  at = λ w h.
      let open' = IsDb-suc w.fresh w.db h.open_db in
      record {
        open_db = record {
          sessions = open'.sessions;
          jobs = open'.jobs;
          artifacts = open'.artifacts;
          deletion_jobs =
              IsTable-append _ w.fresh w.deletion_jobs (row w.fresh w.now) (e w.fresh w.now)
                h.open_db.deletion_jobs;
          keys = open'.keys;
          retries = open'.retries;
        };
        saved_db = IsDb-suc w.fresh w.saved h.saved_db;
      };
  records = λ l w h.
      Recorded-grow l _ _ h _
        (Appends-deletion_jobs w.db _ (Extends-map_append erasing w.deletion_jobs _));
  spares = λ k row w out h. h;
}

-- A key that the lookup did not find is no row's key.
All-key_free :
    (k : IdempotencyKey) (rows : List Job)
    → All (λ j. (j.idempotency_key == k) ≡ false) rows
    → All (λ j. j.idempotency_key ≢ k) rows
All-key_free k [] h = tt
All-key_free k (j ∷ js) h =
    (λ e. ground (arith, (key_eq.same_iff j.idempotency_key k).1 e), All-key_free k js h.1)

pub Keeps-add_job :
    {own : Scope} (row : ℕ → ℕ → Job)
    → ((id now : ℕ) → (row id now).id ≡ id)
    → ((id now : ℕ) → (row id now).retry_count ≤ (row id now).max_retries)
    → Keeps own (add_job row)
unfolding add_job
Keeps-add_job row e r = record {
  at = λ w h. inserted w h _ refl;
  records = λ l w h. inserted_record l w h _;
  spares = λ k row' w out h. inserted_row k row' w h _;
}
  where
    inserted_row :
        (k : ℕ) (row' : Job) (w : World)
        → Settled k row' w
        → (found : Option Job) → Settled k row' (insert_job found (row w.fresh w.now) w).1
    inserted_row k row' w h (some _) = h
    inserted_row k row' w h none = (h.0, job_row-append k row' w.db (row w.fresh w.now) h.1, h.2)

    inserted_record :
        (l : Ledger) (w : World)
        → Recorded l w
        → (found : Option Job) → Recorded l (insert_job found (row w.fresh w.now) w).1
    inserted_record l w h (some _) = h
    inserted_record l w h none =
        Recorded-grow l _ _ h _
          (Appends-jobs w.db _ (Extends-map_append keyed w.jobs (row w.fresh w.now)))

    inserted :
        (w : World)
        → IsValid w
        → (found : Option Job)
        → find (λ k. k.idempotency_key == (row w.fresh w.now).idempotency_key) w.jobs ≡ found
        → IsValid (insert_job found (row w.fresh w.now) w).1
    inserted w h (some _) p = h
    inserted w h none p =
        let open' = IsDb-suc w.fresh w.db h.open_db in
        record {
          open_db = record {
            sessions = open'.sessions;
            jobs =
                IsTable-append _ w.fresh w.jobs (row w.fresh w.now) (e w.fresh w.now)
                  h.open_db.jobs;
            artifacts = open'.artifacts;
            deletion_jobs = open'.deletion_jobs;
            keys =
                Distinct-append (λ j. j.idempotency_key) w.jobs (row w.fresh w.now) h.open_db.keys
                  (All-key_free _ w.jobs (find-none _ w.jobs p));
            retries =
                All-append (λ j. j.retry_count ≤ j.max_retries) w.jobs (row w.fresh w.now ∷ [])
                  h.open_db.retries (r w.fresh w.now, tt);
          };
          saved_db = IsDb-suc w.fresh w.saved h.saved_db;
        }

pub Keeps-refresh_session : {own : Scope} (sid : ℕ) → Keeps own (refresh_session sid)
unfolding refresh_session
Keeps-refresh_session sid = search keeps_rules

pub Keeps-refresh_artifact : {own : Scope} (aid : ℕ) → Keeps own (refresh_artifact aid)
unfolding refresh_artifact
Keeps-refresh_artifact aid = search keeps_rules

pub ruleset insert_rules = (
  Keeps-add_event, Keeps-add_audit_log, Keeps-add_session, Keeps-add_artifact,
  Keeps-add_deletion_job, Keeps-add_job, Keeps-refresh_session, Keeps-refresh_artifact,
)
