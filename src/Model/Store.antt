-- ===== src/Model/Store.antt =====
-- Reading and writing rows: the queries and flushes that the handlers are made of.
use ai_badge.Prelude.{
  ◌==◌, nat_eq, string_eq, find, update_where, ℕ, suc, Option, none, some, List, [], ◌∷◌, ◌++◌,
}
use ai_badge.Model.Rows.{
  Session, Job, WorkflowEvent, Artifact, AuditLog, DeletionJob, key_eq, opt_eq,
}
use ai_badge.Model.Effects.{
  Db, World, ok, err, Action, pure, raise, gets, or_raise, ◌>>=◌, modify, integrity_error,
  multiple_results, no_result,
}

-- `uuid.uuid4()`
unfoldable pub uuid4 : Action ℕ
uuid4 w = (ok w.fresh, record w { fresh = suc w.fresh })

-- `result.scalar_one_or_none()` on the rows that a query found
unfoldable pub scalar_one_or_none : {A : Type 0} → List A → Action (Option A)
unfolding pure raise
scalar_one_or_none [] = pure none
scalar_one_or_none (x ∷ []) = pure (some x)
scalar_one_or_none (x ∷ y ∷ rest) = raise multiple_results

abbrev pub find_session : ℕ → World → Option Session
find_session sid w = find (λ s. s.id == sid) w.sessions

abbrev pub find_job : ℕ → World → Option Job
find_job jid w = find (λ j. j.id == jid) w.jobs

abbrev pub find_artifact : ℕ → World → Option Artifact
find_artifact aid w = find (λ a. a.id == aid) w.artifacts

abbrev pub set_session : ℕ → (Session → Session) → Db → Db
set_session sid f d = record d { sessions = update_where (λ s. s.id == sid) f d.sessions }

abbrev pub set_job : ℕ → (Job → Job) → Db → Db
set_job jid f d = record d { jobs = update_where (λ j. j.id == jid) f d.jobs }

abbrev pub set_artifact : ℕ → (Artifact → Artifact) → Db → Db
set_artifact aid f d = record d { artifacts = update_where (λ a. a.id == aid) f d.artifacts }

abbrev pub set_deletion_job : ℕ → (DeletionJob → DeletionJob) → Db → Db
set_deletion_job jid f d = record d {
  deletion_jobs = update_where (λ j. j.id == jid) f d.deletion_jobs;
}

-- Assignments to the attributes of a loaded row, flushed.
unfoldable pub write_session : ℕ → (Session → Session) → Action Unit
unfolding modify
write_session sid f = modify (set_session sid f)

unfoldable pub write_job : ℕ → (Job → Job) → Action Unit
unfolding modify
write_job jid f = modify (set_job jid f)

unfoldable pub write_artifact : ℕ → (Artifact → Artifact) → Action Unit
unfolding modify
write_artifact aid f = modify (set_artifact aid f)

unfoldable pub write_deletion_job : ℕ → (DeletionJob → DeletionJob) → Action Unit
unfolding modify
write_deletion_job jid f = modify (set_deletion_job jid f)

-- `db.refresh(row)`
unfoldable pub refresh_session : ℕ → Action Session
unfolding ◌>>=◌
refresh_session sid = do found ← gets (find_session sid); or_raise found no_result

unfoldable pub refresh_artifact : ℕ → Action Artifact
unfolding ◌>>=◌
refresh_artifact aid = do found ← gets (find_artifact aid); or_raise found no_result

-- `db.add(row)` and a flush: the row gets its identifier and joins its table.
unfoldable pub add_session : (ℕ → ℕ → Session) → Action Session
add_session row w =
    let s = row w.fresh w.now in
    (ok s, record w { db = record w.db { sessions = w.sessions ++ s ∷ [] }; fresh = suc w.fresh })

unfoldable pub add_event : (ℕ → ℕ → WorkflowEvent) → Action Unit
add_event row w =
    let e = row w.fresh w.now in
    (
      ok tt,
      record w {
        db = record w.db { workflow_events = w.workflow_events ++ e ∷ [] };
        fresh = suc w.fresh;
      },
    )

unfoldable pub add_artifact : (ℕ → ℕ → Artifact) → Action Artifact
add_artifact row w =
    let a = row w.fresh w.now in
    (ok a, record w { db = record w.db { artifacts = w.artifacts ++ a ∷ [] }; fresh = suc w.fresh })

unfoldable pub add_audit_log : (ℕ → ℕ → AuditLog) → Action AuditLog
add_audit_log row w =
    let a = row w.fresh w.now in
    (
      ok a,
      record w { db = record w.db { audit_logs = w.audit_logs ++ a ∷ [] }; fresh = suc w.fresh },
    )

unfoldable pub add_deletion_job : (ℕ → ℕ → DeletionJob) → Action Unit
add_deletion_job row w =
    let j = row w.fresh w.now in
    (
      ok tt,
      record w {
        db = record w.db { deletion_jobs = w.deletion_jobs ++ j ∷ [] };
        fresh = suc w.fresh;
      },
    )

-- `jobs.idempotency_key` is unique: a second row with a key is refused.
abbrev pub insert_job : Option Job → Job → Action Job
insert_job (some _) j w = (err integrity_error, w)
insert_job none j w =
    (ok j, record w { db = record w.db { jobs = w.jobs ++ j ∷ [] }; fresh = suc w.fresh })

unfoldable pub add_job : (ℕ → ℕ → Job) → Action Job
add_job row w =
    let j = row w.fresh w.now in
    insert_job (find (λ k. k.idempotency_key == j.idempotency_key) w.jobs) j w

-- To unfold this is to unfold the actions of this module and the monad.
unfoldable pub store : Unit {0}
unfolding ◌>>=◌ uuid4 scalar_one_or_none write_session write_job write_artifact write_deletion_job
    refresh_session refresh_artifact add_session add_event add_artifact add_audit_log
    add_deletion_job add_job
store = tt
