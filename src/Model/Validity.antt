-- ===== src/Model/Validity.antt =====
-- The invariant of the database, and a rule for each way to build an action that keeps it.
use ai_badge.Prelude.{
  update_where, delete_where, All, All-append, All-update_where, All-delete_where, Distinct,
  Distinct-update_where, Distinct-delete_where, Distinct-append, ℕ, suc, ◌≤◌, ◌<◌, ◌≡◌, sym, subst,
  ◌≢◌, Bool, List, [], ◌∷◌, ◌++◌, arith,
}
use ai_badge.Model.Effects.{Db, World}

-- A primary key: distinct, and below the identifiers still to come.
pub record IsTable {ℓ} {A : Type ℓ} (key : A → ℕ) (bound : ℕ) (rows : List A) : Type ℓ where
  pub distinct : Distinct key rows
  pub below : All (λ r. key r < bound) rows

pub record IsDb (bound : ℕ) (d : Db) : Type 0 where
  pub sessions : IsTable (λ s. s.id) bound d.sessions
  pub jobs : IsTable (λ j. j.id) bound d.jobs
  pub artifacts : IsTable (λ a. a.id) bound d.artifacts
  pub deletion_jobs : IsTable (λ j. j.id) bound d.deletion_jobs
  -- the unique constraint on jobs.idempotency_key
  pub keys : Distinct (λ j. j.idempotency_key) d.jobs
  -- no job has been retried more often than it may
  pub retries : All (λ j. j.retry_count ≤ j.max_retries) d.jobs

-- What holds of the open transaction and of the committed state alike.
pub record IsValid (w : World) : Type 0 where
  pub open_db : IsDb w.fresh w.db
  pub saved_db : IsDb w.fresh w.saved

module _ {ℓ} {A : Type ℓ} (key : A → ℕ) where
  All-lt-suc :
      (bound : ℕ) (rows : List A)
      → All (λ r. key r < bound) rows
      → All (λ r. key r < suc bound) rows
  All-lt-suc bound [] h = tt
  All-lt-suc bound (x ∷ xs) h = (omega arith, All-lt-suc bound xs h.1)

  All-ne-bound :
      (bound : ℕ) (x : A) (rows : List A)
      → key x ≡ bound
      → All (λ r. key r < bound) rows
      → All (λ r. key r ≢ key x) rows
  All-ne-bound bound x [] e h = tt
  All-ne-bound bound x (y ∷ ys) e h = (omega arith, All-ne-bound bound x ys e h.1)

  pub IsTable-suc :
      (bound : ℕ) (rows : List A) → IsTable key bound rows → IsTable key (suc bound) rows
  IsTable-suc bound rows t = record { distinct = t.distinct; below = All-lt-suc bound rows t.below }

  pub IsTable-append :
      (bound : ℕ) (rows : List A) (x : A)
      → key x ≡ bound
      → IsTable key bound rows
      → IsTable key (suc bound) (rows ++ x ∷ [])
  IsTable-append bound rows x e t = record {
    distinct = Distinct-append key rows x t.distinct (All-ne-bound bound x rows e t.below);
    below =
        All-append (λ r. key r < suc bound) rows (x ∷ []) (All-lt-suc bound rows t.below)
          (omega arith, tt);
  }

  pub IsTable-update_where :
      (bound : ℕ) (p : A → Bool) (f : A → A) (rows : List A)
      → ((x : A) → key (f x) ≡ key x)
      → IsTable key bound rows
      → IsTable key bound (update_where p f rows)
  IsTable-update_where bound p f rows keep t = record {
    distinct = Distinct-update_where key p f keep rows t.distinct;
    below =
        All-update_where (λ r. key r < bound) p f (λ x h. subst (λ n. n < bound) (sym (keep x)) h)
          rows t.below;
  }

  pub IsTable-delete_where :
      (bound : ℕ) (p : A → Bool) (rows : List A)
      → IsTable key bound rows
      → IsTable key bound (delete_where p rows)
  IsTable-delete_where bound p rows t = record {
    distinct = Distinct-delete_where key p rows t.distinct;
    below = All-delete_where (λ r. key r < bound) p rows t.below;
  }

pub IsDb-suc : (bound : ℕ) (d : Db) → IsDb bound d → IsDb (suc bound) d
IsDb-suc bound d h = record {
  sessions = IsTable-suc _ bound d.sessions h.sessions;
  jobs = IsTable-suc _ bound d.jobs h.jobs;
  artifacts = IsTable-suc _ bound d.artifacts h.artifacts;
  deletion_jobs = IsTable-suc _ bound d.deletion_jobs h.deletion_jobs;
  keys = h.keys;
  retries = h.retries;
}
