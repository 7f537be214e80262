-- ===== src/Model/Settled.antt =====
-- Jobs that are done with: completed or failed, and in no row of which anything is to be written
-- again.
use ai_badge.Prelude.{
  Bool-cases, string_eq, nat_eq, ◌==◌, find, update_where, omap, updated, find-append,
  find-update_where, ℕ, ◌≡◌, refl, sym, ap, ◌∙◌, inl, inr, Bool, true, false, not, ◌||◌, Option,
  some, List, [], ◌∷◌, ◌++◌, arith,
}
use ai_badge.Model.Status.{session_status_eq, job_status_eq, artifact_status_eq, JobStatus}
use ai_badge.Model.Rows.{opt_eq, key_eq, Job}
use ai_badge.Model.Effects.{Db, World}

-- The one job whose row an action may write, if it may write any.
pub data Scope : Type 0 where
  nothing : Scope
  only : ℕ → Scope
  anything : Scope

abbrev pub is_outside : Scope → ℕ → Bool
is_outside nothing k = true
is_outside (only jid) k = not (jid == k)
is_outside anything k = false

abbrev pub is_final : Job → Bool
is_final j = j.status == JobStatus.completed || j.status == JobStatus.failed

abbrev pub job_row : ℕ → Db → Option Job
job_row k d = find (λ j. j.id == k) d.jobs

-- A final job's row, in the open transaction and as committed.
abbrev pub Settled : ℕ → Job → World → Type 0
Settled k row w =
    (is_final row ≡ true) × (job_row k w.db ≡ some row) × (job_row k w.saved ≡ some row)

-- A row that was there is still what is found when others follow.
pub job_row-append :
    (k : ℕ) (row : Job) (d : Db) (j : Job)
    → job_row k d ≡ some row
    → find (λ i. i.id == k) (d.jobs ++ j ∷ []) ≡ some row
job_row-append k row d j h =
    let all = find-append (λ i. i.id == k) d.jobs (j ∷ []) in ground (arith, all, h)

-- A change of other rows leaves this one.
pub job_row-update_where :
    (k : ℕ) (row : Job) (p : Job → Bool) (f : Job → Job)
    → ((j : Job) → (f j).id ≡ j.id)
    → p row ≡ false
    → (d : Db) → job_row k d ≡ some row
    → find (λ i. i.id == k) (update_where p f d.jobs) ≡ some row
job_row-update_where k row p f keep other d h =
    find-update_where (λ i. i.id == k) p f (λ j. ap (λ n. n == k) (keep j)) d.jobs
    ∙ (ap (omap (updated p f)) h ∙ ground (arith, other))

-- The row that a lookup finds has the identifier.
pub job_row-id : (k : ℕ) (row : Job) (d : Db) → job_row k d ≡ some row → row.id ≡ k
job_row-id k row d h = found d.jobs h
  where
    found : (js : List Job) → find (λ j. j.id == k) js ≡ some row → row.id ≡ k
    found [] e = cc
    found (j ∷ js) e = elim (Bool-cases (j.id == k)) [
      | inl b ↦
          let same : j ≡ row = ground (arith, e, b) in ap (λ i. i.id) (sym same) ∙ ground (arith, b)
      | inr b ↦ found js (rw b at e)
    ]

pub job_row-apart :
    (jid k : ℕ) (row : Job) (d : Db)
    → is_outside (only jid) k ≡ true
    → job_row k d ≡ some row
    → (row.id == jid) ≡ false
job_row-apart jid k row d out h = let same = job_row-id k row d h in ground (arith, same, out)

-- A final status is neither of the others.
final_status :
    (s : JobStatus)
    → (s == JobStatus.completed || s == JobStatus.failed) ≡ true
    → ((s == JobStatus.running) ≡ false) × ((s == JobStatus.pending) ≡ false)
final_status JobStatus.pending h = absurd (ground arith)
final_status JobStatus.running h = absurd (ground arith)
final_status JobStatus.completed h = (refl, refl)
final_status JobStatus.failed h = (refl, refl)

pub final-not_running : (j : Job) → is_final j ≡ true → (j.status == JobStatus.running) ≡ false
final-not_running j h = (final_status j.status h).0

pub final-not_pending : (j : Job) → is_final j ≡ true → (j.status == JobStatus.pending) ≡ false
final-not_pending j h = (final_status j.status h).1
