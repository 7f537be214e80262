-- ===== src/Migrations/WorkflowEvents.antt =====
-- backend/alembic/versions/002_workflow_events_nullable_job_id.py: workflow events that belong to
-- no job, and the rows that the table has by then.
use ai_badge.Prelude.{
  update_where, ℕ, String, Bool, true, false, ◌&&◌, Option, none, some, List, [], ◌∷◌, map,
}
use ai_badge.Model.Rows.{WorkflowEvent}
use ai_badge.Migrations.Schema.{
  Catalog, column, default, Statement, with_rows, create_index, drop_index, add_column, drop_column,
  set_nullable, uuid, varchar, Outcome, ◌>>◌,
}

-- A row of workflow_events as the first revision creates the table.
pub record InitialEvent : Type 0 where
  pub id : ℕ
  pub job_id : ℕ
  pub event_type : String
  pub event_data : Option String
  pub created_at : ℕ

-- Steps 1 to 3 on the table, with 1 on rows that may hold anything.
unfoldable pub upgrade_table : Statement
upgrade_table = do
  set_nullable "workflow_events" "job_id" true true
  add_column "workflow_events" (column "session_id" uuid true)
  add_column "workflow_events" (column "artifact_id" uuid true)
  add_column "workflow_events" (default "job" (column "resource_type" (varchar 32) false))
  add_column "workflow_events" (column "resource_id" uuid true)
  create_index "ix_workflow_events_session_id" "workflow_events" ("session_id" ∷ [])
  create_index "ix_workflow_events_artifact_id" "workflow_events" ("artifact_id" ∷ [])
  create_index "ix_workflow_events_resource_type" "workflow_events" ("resource_type" ∷ [])

-- A row with the new columns: NULL, or the default of the server.
abbrev pub widen : InitialEvent → WorkflowEvent
widen e = record {
  id = e.id;
  job_id = some e.job_id;
  session_id = none;
  artifact_id = none;
  resource_type = "job";
  resource_id = none;
  event_type = e.event_type;
  event_data = e.event_data;
  created_at = e.created_at;
}

-- `job_id IS NOT NULL`
abbrev pub has_job : WorkflowEvent → Bool
has_job e = elim e.job_id [ none ↦ false | some j ↦ true ]

-- Step 4.
abbrev pub backfill : List WorkflowEvent → List WorkflowEvent
backfill rows =
    update_where has_job (λ e. record e { resource_id = e.job_id })
      (update_where has_job (λ e. record e { resource_type = "job" }) rows)

unfoldable pub upgrade : Catalog → List InitialEvent → Outcome (Catalog × List WorkflowEvent)
unfolding upgrade_table
upgrade c rows = with_rows (backfill (map widen rows)) (upgrade_table c)

-- The rows with the columns of the first revision; none is left out where each has a job.
abbrev pub narrow_row : WorkflowEvent → Option ℕ → List InitialEvent → List InitialEvent
narrow_row e none rest = rest
narrow_row e (some j) rest =
    record {
      id = e.id;
      job_id = j;
      event_type = e.event_type;
      event_data = e.event_data;
      created_at = e.created_at;
    }
    ∷ rest

abbrev pub narrow : List WorkflowEvent → List InitialEvent
narrow [] = []
narrow (e ∷ es) = narrow_row e e.job_id (narrow es)

abbrev pub all_have_jobs : List WorkflowEvent → Bool
all_have_jobs [] = true
all_have_jobs (e ∷ es) = has_job e && all_have_jobs es

unfoldable pub downgrade_table : Bool → Statement
downgrade_table filled = do
  drop_index "ix_workflow_events_resource_type"
  drop_index "ix_workflow_events_artifact_id"
  drop_index "ix_workflow_events_session_id"
  drop_column "workflow_events" "resource_id"
  drop_column "workflow_events" "resource_type"
  drop_column "workflow_events" "artifact_id"
  drop_column "workflow_events" "session_id"
  set_nullable "workflow_events" "job_id" false filled

unfoldable pub downgrade : Catalog → List WorkflowEvent → Outcome (Catalog × List InitialEvent)
unfolding downgrade_table
downgrade c rows = with_rows (narrow rows) (downgrade_table (all_have_jobs rows) c)
