-- ===== src/Migrations/Initial.antt =====
-- backend/alembic/versions/001_initial.py: the nine tables, in the order of their dependencies.
use ai_badge.Prelude.{true, false, List, [], ◌∷◌}
use ai_badge.Migrations.Schema.{
  ◌>>◌, column, primary, unique, default, references, Statement, create_table, create_index,
  drop_table, Column, ColumnType, uuid, integer, float, boolean, jsonb, timestamp, varchar, cascade,
  restrict, set_null,
}

abbrev pub organizations : List Column
organizations =
    primary "id" uuid
    ∷ unique (column "name" (varchar 256) false)
    ∷ unique (column "slug" (varchar 128) false)
    ∷ default "now()" (column "created_at" timestamp false)
    ∷ default "now()" (column "updated_at" timestamp false)
    ∷ []

abbrev pub users : List Column
users =
    primary "id" uuid
    ∷ references "organizations" cascade (column "org_id" uuid false)
    ∷ unique (column "email" (varchar 255) false)
    ∷ column "password_hash" (varchar 255) false
    ∷ column "display_name" (varchar 128) false
    ∷ default "owner" (column "role" (varchar 32) false)
    ∷ default "now()" (column "created_at" timestamp false)
    ∷ default "now()" (column "updated_at" timestamp false)
    ∷ []

abbrev pub devices : List Column
devices =
    primary "id" uuid
    ∷ references "users" cascade (column "user_id" uuid false)
    ∷ column "name" (varchar 128) false
    ∷ unique (column "device_key" (varchar 256) false)
    ∷ default "virtual_phone_mic" (column "device_type" (varchar 64) false)
    ∷ default "active" (column "status" (varchar 32) false)
    ∷ default "now()" (column "created_at" timestamp false)
    ∷ []

abbrev pub sessions : List Column
sessions =
    primary "id" uuid
    ∷ references "users" cascade (column "user_id" uuid false)
    ∷ references "devices" restrict (column "device_id" uuid false)
    ∷ column "title" (varchar 256) true
    ∷ default "idle" (column "status" (varchar 32) false)
    ∷ default "false" (column "consent_granted" boolean false)
    ∷ column "audio_key" (varchar 512) true
    ∷ column "audio_format" (varchar 16) true
    ∷ column "audio_size_bytes" integer true
    ∷ column "duration_seconds" float true
    ∷ column "metadata_json" jsonb true
    ∷ column "deleted_at" timestamp true
    ∷ column "retracted_by" uuid true
    ∷ column "retraction_reason" (varchar 512) true
    ∷ default "now()" (column "started_at" timestamp false)
    ∷ column "ended_at" timestamp true
    ∷ default "now()" (column "created_at" timestamp false)
    ∷ default "now()" (column "updated_at" timestamp false)
    ∷ []

abbrev pub jobs : List Column
jobs =
    primary "id" uuid
    ∷ unique (column "idempotency_key" (varchar 128) false)
    ∷ references "sessions" cascade (column "session_id" uuid true)
    ∷ column "job_type" (varchar 64) false
    ∷ default "pending" (column "status" (varchar 32) false)
    ∷ default "{}" (column "input_payload" jsonb false)
    ∷ column "output_payload" jsonb true
    ∷ column "error_message" ColumnType.text true
    ∷ default "0" (column "priority" integer false)
    ∷ default "0" (column "retry_count" integer false)
    ∷ default "3" (column "max_retries" integer false)
    ∷ column "next_run_at" timestamp true
    ∷ column "started_at" timestamp true
    ∷ column "completed_at" timestamp true
    ∷ default "now()" (column "created_at" timestamp false)
    ∷ []

abbrev pub workflow_events : List Column
workflow_events =
    primary "id" uuid
    ∷ references "jobs" cascade (column "job_id" uuid false)
    ∷ column "event_type" (varchar 64) false
    ∷ column "event_data" ColumnType.text true
    ∷ default "now()" (column "created_at" timestamp false)
    ∷ []

abbrev pub artifacts : List Column
artifacts =
    primary "id" uuid
    ∷ references "sessions" cascade (column "session_id" uuid false)
    ∷ references "jobs" set_null (column "job_id" uuid true)
    ∷ column "artifact_type" (varchar 64) false
    ∷ column "title" (varchar 256) true
    ∷ default "{}" (column "content" jsonb false)
    ∷ column "summary" ColumnType.text true
    ∷ default "draft" (column "status" (varchar 32) false)
    ∷ references "users" set_null (column "assigned_reviewer_id" uuid true)
    ∷ column "review_status" (varchar 32) true
    ∷ column "review_comment" ColumnType.text true
    ∷ column "published_at" timestamp true
    ∷ default "now()" (column "created_at" timestamp false)
    ∷ default "now()" (column "updated_at" timestamp false)
    ∷ []

abbrev pub audit_logs : List Column
audit_logs =
    primary "id" uuid
    ∷ column "user_id" uuid true
    ∷ column "action" (varchar 128) false
    ∷ column "resource_type" (varchar 64) false
    ∷ column "resource_id" uuid true
    ∷ column "session_id" uuid true
    ∷ column "artifact_id" uuid true
    ∷ column "details" jsonb true
    ∷ column "ip_address" (varchar 45) true
    ∷ default "now()" (column "created_at" timestamp false)
    ∷ []

abbrev pub deletion_jobs : List Column
deletion_jobs =
    primary "id" uuid
    ∷ references "artifacts" set_null (column "artifact_id" uuid true)
    ∷ column "session_id" uuid true
    ∷ column "resource_type" (varchar 64) false
    ∷ column "resource_id" uuid false
    ∷ default "pending" (column "status" (varchar 32) false)
    ∷ column "cascade_targets" jsonb true
    ∷ column "error_message" ColumnType.text true
    ∷ default "0" (column "retry_count" integer false)
    ∷ default "3" (column "max_retries" integer false)
    ∷ column "next_run_at" timestamp true
    ∷ column "completed_at" timestamp true
    ∷ default "now()" (column "created_at" timestamp false)
    ∷ []

unfoldable pub create_organizations : Statement
create_organizations = do
  create_table "organizations" organizations
  create_index "ix_organizations_slug" "organizations" ("slug" ∷ [])

unfoldable pub create_users : Statement
create_users = do
  create_table "users" users
  create_index "ix_users_org_id" "users" ("org_id" ∷ [])
  create_index "ix_users_email" "users" ("email" ∷ [])

unfoldable pub create_devices : Statement
create_devices = do
  create_table "devices" devices
  create_index "ix_devices_user_id" "devices" ("user_id" ∷ [])

unfoldable pub create_sessions : Statement
create_sessions = do
  create_table "sessions" sessions
  create_index "ix_sessions_user_id" "sessions" ("user_id" ∷ [])
  create_index "ix_sessions_device_id" "sessions" ("device_id" ∷ [])

unfoldable pub create_jobs : Statement
create_jobs = do
  create_table "jobs" jobs
  create_index "ix_jobs_session_id" "jobs" ("session_id" ∷ [])
  create_index "ix_jobs_job_type" "jobs" ("job_type" ∷ [])
  create_index "ix_jobs_status" "jobs" ("status" ∷ [])
  create_index "ix_jobs_poll" "jobs" ("status" ∷ "next_run_at" ∷ "priority" ∷ [])

unfoldable pub create_workflow_events : Statement
create_workflow_events = do
  create_table "workflow_events" workflow_events
  create_index "ix_workflow_events_job_id" "workflow_events" ("job_id" ∷ [])

unfoldable pub create_artifacts : Statement
create_artifacts = do
  create_table "artifacts" artifacts
  create_index "ix_artifacts_session_id" "artifacts" ("session_id" ∷ [])
  create_index "ix_artifacts_job_id" "artifacts" ("job_id" ∷ [])
  create_index "ix_artifacts_status" "artifacts" ("status" ∷ [])

unfoldable pub create_audit_logs : Statement
create_audit_logs = do
  create_table "audit_logs" audit_logs
  create_index "ix_audit_logs_user_id" "audit_logs" ("user_id" ∷ [])
  create_index "ix_audit_logs_action" "audit_logs" ("action" ∷ [])
  create_index "ix_audit_logs_resource_type" "audit_logs" ("resource_type" ∷ [])

unfoldable pub create_deletion_jobs : Statement
create_deletion_jobs = do
  create_table "deletion_jobs" deletion_jobs
  create_index "ix_deletion_jobs_artifact_id" "deletion_jobs" ("artifact_id" ∷ [])
  create_index "ix_deletion_jobs_status" "deletion_jobs" ("status" ∷ [])

unfoldable pub upgrade : Statement
unfolding create_organizations create_users create_devices create_sessions create_jobs
    create_workflow_events create_artifacts create_audit_logs create_deletion_jobs
upgrade = do
  create_organizations
  create_users
  create_devices
  create_sessions
  create_jobs
  create_workflow_events
  create_artifacts
  create_audit_logs
  create_deletion_jobs

unfoldable pub downgrade : Statement
downgrade = do
  drop_table "deletion_jobs"
  drop_table "audit_logs"
  drop_table "artifacts"
  drop_table "workflow_events"
  drop_table "jobs"
  drop_table "sessions"
  drop_table "devices"
  drop_table "users"
  drop_table "organizations"
