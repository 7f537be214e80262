-- ===== src/Migrations/Events.antt =====
-- The second revision of backend/alembic, up and down, on the rows of workflow_events.
use ai_badge.Prelude.{
  if◌then◌else◌, All, ◌≡◌, refl, Bool, true, false, List, [], ◌∷◌, ◌++◌, map, arith,
}
use ai_badge.Model.Rows.{WorkflowEvent}
use ai_badge.Migrations.Schema.{
  Catalog, column, default, alter, alter_column, create_index, drop_index, add_column, drop_column,
  set_nullable, Table, uuid, varchar, not_null_violation, done, refused,
}
use ai_badge.Migrations.Initial
use ai_badge.Migrations.WorkflowEvents
use ai_badge.Migrations.WorkflowEvents.{
  upgrade_table, widen, backfill, narrow, all_have_jobs, downgrade_table, InitialEvent,
}
use ai_badge.Migrations.Deployment.{with_deletion_jobs, upgrade-done, IsFresh}

narrow-widen : (rows : List InitialEvent) → narrow (backfill (map widen rows)) ≡ rows
narrow-widen [] = refl
narrow-widen (e ∷ es) = rw (narrow-widen es) refl

all_have_jobs-widen : (rows : List InitialEvent) → all_have_jobs (backfill (map widen rows)) ≡ true
all_have_jobs-widen [] = refl
all_have_jobs-widen (e ∷ es) = all_have_jobs-widen es

backfill-resource :
    (rows : List InitialEvent)
    → All (λ e. (e.resource_type ≡ "job") × (e.resource_id ≡ e.job_id)) (backfill (map widen rows))
backfill-resource [] = tt
backfill-resource (e ∷ es) = ((refl, refl), backfill-resource es)

-- The table of events after the second revision.
abbrev widened : Table → Table
widened t = record t {
  columns =
      alter_column "job_id" (λ k. record k { nullable = true }) t.columns
      ++ column "session_id" uuid true
        ∷ column "artifact_id" uuid true
        ∷ default "job" (column "resource_type" (varchar 32) false)
        ∷ column "resource_id" uuid true
        ∷ [];
  indexes =
      record { name = "ix_workflow_events_resource_type"; columns = "resource_type" ∷ [] }
      ∷ record { name = "ix_workflow_events_artifact_id"; columns = "artifact_id" ∷ [] }
      ∷ record { name = "ix_workflow_events_session_id"; columns = "session_id" ∷ [] }
      ∷ t.indexes;
}

module _ (c : Catalog) (fresh : IsFresh c) where
  upgrade_table-done :
      upgrade_table (with_deletion_jobs c)
      ≡ done (alter "workflow_events" widened (with_deletion_jobs c))
  unfolding upgrade_table set_nullable add_column create_index
  upgrade_table-done =
      rw
        (
          fresh.indexes "ix_workflow_events_session_id" refl,
          fresh.indexes "ix_workflow_events_artifact_id" refl,
          fresh.indexes "ix_workflow_events_resource_type" refl,
        )
        refl

  downgrade_table-done :
      (filled : Bool)
      → downgrade_table filled (alter "workflow_events" widened (with_deletion_jobs c))
        ≡ (if filled then done (with_deletion_jobs c) else refused (not_null_violation "job_id"))
  unfolding downgrade_table drop_index drop_column set_nullable
  downgrade_table-done true = refl
  downgrade_table-done false = refl

  -- On a database that the first revision made, with any rows of events: the second revision
  -- succeeds and makes every event that of its job, and undoing it gives back the schema and every
  -- row exactly as they were.
  pub downgrade-upgrade_rows :
      (c1 : Catalog) (rows : List InitialEvent)
      → Initial.upgrade c ≡ done c1
      → (c2 : Catalog) × (events : List WorkflowEvent) × (WorkflowEvents.upgrade c1 rows
          ≡ done (c2, events))
        × All (λ e. (e.resource_type ≡ "job") × (e.resource_id ≡ e.job_id)) events
        × (WorkflowEvents.downgrade c2 events ≡ done (c1, rows))
  unfolding WorkflowEvents.upgrade WorkflowEvents.downgrade
  downgrade-upgrade_rows c1 rows made =
      let same : with_deletion_jobs c ≡ c1 = ground (arith, upgrade-done c fresh) in
      rw (← same) (
        alter "workflow_events" widened (with_deletion_jobs c),
        backfill (map widen rows),
        rw upgrade_table-done refl,
        backfill-resource rows,
        rw (all_have_jobs-widen rows, downgrade_table-done true, narrow-widen rows) refl,
      )

  -- Once an event belongs to no job, as those of sessions and artifacts do, the second revision
  -- cannot be undone: the column job_id is not made NOT NULL over it, and the revision is refused.
  pub downgrade-refused :
      (c1 c2 : Catalog) (rows : List InitialEvent) (events old : List WorkflowEvent)
      → Initial.upgrade c ≡ done c1
      → WorkflowEvents.upgrade c1 rows ≡ done (c2, old)
      → all_have_jobs events ≡ false
      → WorkflowEvents.downgrade c2 events ≡ refused (not_null_violation "job_id")
  unfolding WorkflowEvents.upgrade WorkflowEvents.downgrade
  downgrade-refused c1 c2 rows events old made up free =
      let same : c1 ≡ with_deletion_jobs c = ground (arith, upgrade-done c fresh) in
      let up' = rw (same, upgrade_table-done) at up in
      let widened_c : alter "workflow_events" widened (with_deletion_jobs c) ≡ c2 = ground arith in
      rw (← widened_c, free, downgrade_table-done false) refl
