-- ===== src/Migrations/Metadata.antt =====
-- The tables that the ORM classes of backend/app/models declare (Base.metadata).
use ai_badge.Prelude.{String, true, false, List, [], ◌∷◌}
use ai_badge.Migrations.Schema.{
  column, primary, unique, default, references, Column, ColumnType, uuid, integer, float, boolean,
  jsonb, timestamp, varchar, cascade, restrict, set_null,
}

-- `__tablename__`, the mapped columns, and those with index=True.
pub record Model : Type 0 where
  pub tablename : String
  pub columns : List Column
  pub indexed : List String

abbrev pub organizations : Model
organizations = record {
  tablename = "organizations";
  columns =
      primary "id" uuid
      ∷ unique (column "name" (varchar 256) false)
      ∷ unique (column "slug" (varchar 128) false)
      ∷ default "now()" (column "created_at" timestamp false)
      ∷ default "now()" (column "updated_at" timestamp false)
      ∷ [];
  indexed = "slug" ∷ [];
}

abbrev pub users : Model
users = record {
  tablename = "users";
  columns =
      primary "id" uuid
      ∷ references "organizations" cascade (column "org_id" uuid false)
      ∷ unique (column "email" (varchar 255) false)
      ∷ column "password_hash" (varchar 255) false
      ∷ column "display_name" (varchar 128) false
      ∷ column "role" (varchar 32) false
      ∷ default "now()" (column "created_at" timestamp false)
      ∷ default "now()" (column "updated_at" timestamp false)
      ∷ [];
  indexed = "org_id" ∷ "email" ∷ [];
}

abbrev pub devices : Model
devices = record {
  tablename = "devices";
  columns =
      primary "id" uuid
      ∷ references "users" cascade (column "user_id" uuid false)
      ∷ column "name" (varchar 128) false
      ∷ unique (column "device_key" (varchar 256) false)
      ∷ column "device_type" (varchar 64) false
      ∷ column "status" (varchar 32) false
      ∷ default "now()" (column "created_at" timestamp false)
      ∷ [];
  indexed = "user_id" ∷ [];
}

abbrev pub sessions : Model
sessions = record {
  tablename = "sessions";
  columns =
      primary "id" uuid
      ∷ references "users" cascade (column "user_id" uuid false)
      ∷ references "devices" restrict (column "device_id" uuid false)
      ∷ column "title" (varchar 256) true
      ∷ column "status" (varchar 32) false
      ∷ column "consent_granted" boolean false
      ∷ column "audio_key" (varchar 512) true
      ∷ column "audio_format" (varchar 16) true
      ∷ column "audio_size_bytes" integer true
      ∷ column "duration_seconds" float true
      ∷ column "metadata_json" jsonb true
      ∷ column "deleted_at" timestamp true
      ∷ column "retracted_by" uuid true
      ∷ column "retraction_reason" (varchar 512) true
      ∷ default "now()" (column "started_at" timestamp false)
      ∷ column "ended_at" timestamp true
      ∷ default "now()" (column "created_at" timestamp false)
      ∷ default "now()" (column "updated_at" timestamp false)
      ∷ [];
  indexed = "user_id" ∷ "device_id" ∷ [];
}

abbrev pub jobs : Model
jobs = record {
  tablename = "jobs";
  columns =
      primary "id" uuid
      ∷ unique (column "idempotency_key" (varchar 128) false)
      ∷ references "sessions" cascade (column "session_id" uuid true)
      ∷ column "job_type" (varchar 64) false
      ∷ column "status" (varchar 32) false
      ∷ column "input_payload" jsonb false
      ∷ column "output_payload" jsonb true
      ∷ column "error_message" ColumnType.text true
      ∷ column "priority" integer false
      ∷ column "retry_count" integer false
      ∷ column "max_retries" integer false
      ∷ column "next_run_at" timestamp true
      ∷ column "started_at" timestamp true
      ∷ column "completed_at" timestamp true
      ∷ default "now()" (column "created_at" timestamp false)
      ∷ [];
  indexed = "session_id" ∷ "job_type" ∷ "status" ∷ [];
}

abbrev pub workflow_events : Model
workflow_events = record {
  tablename = "workflow_events";
  columns =
      primary "id" uuid
      ∷ references "jobs" cascade (column "job_id" uuid true)
      ∷ column "session_id" uuid true
      ∷ column "artifact_id" uuid true
      ∷ column "resource_type" (varchar 32) false
      ∷ column "resource_id" uuid true
      ∷ column "event_type" (varchar 64) false
      ∷ column "event_data" ColumnType.text true
      ∷ default "now()" (column "created_at" timestamp false)
      ∷ [];
  indexed = "job_id" ∷ [];
}

abbrev pub artifacts : Model
artifacts = record {
  tablename = "artifacts";
  columns =
      primary "id" uuid
      ∷ references "sessions" cascade (column "session_id" uuid false)
      ∷ references "jobs" set_null (column "job_id" uuid true)
      ∷ column "artifact_type" (varchar 64) false
      ∷ column "title" (varchar 256) true
      ∷ column "content" jsonb false
      ∷ column "summary" ColumnType.text true
      ∷ column "status" (varchar 32) false
      ∷ references "users" set_null (column "assigned_reviewer_id" uuid true)
      ∷ column "review_status" (varchar 32) true
      ∷ column "review_comment" ColumnType.text true
      ∷ column "published_at" timestamp true
      ∷ default "now()" (column "created_at" timestamp false)
      ∷ default "now()" (column "updated_at" timestamp false)
      ∷ [];
  indexed = "session_id" ∷ "job_id" ∷ "status" ∷ [];
}

abbrev pub audit_logs : Model
audit_logs = record {
  tablename = "audit_logs";
  columns =
      primary "id" uuid
      ∷ column "user_id" uuid true
      ∷ column "action" (varchar 128) false
      ∷ column "resource_type" (varchar 64) false
      ∷ column "resource_id" uuid true
      ∷ column "session_id" uuid true
      ∷ column "artifact_id" uuid true
      ∷ column "details" jsonb true
      ∷ column "ip_address" (varchar 45) true
      ∷ default "now()" (column "created_at" timestamp false)
      ∷ [];
  indexed = "user_id" ∷ "action" ∷ "resource_type" ∷ [];
}

abbrev pub deletion_jobs : Model
deletion_jobs = record {
  tablename = "deletion_jobs";
  columns =
      primary "id" uuid
      ∷ references "artifacts" set_null (column "artifact_id" uuid true)
      ∷ column "session_id" uuid true
      ∷ column "resource_type" (varchar 64) false
      ∷ column "resource_id" uuid false
      ∷ column "status" (varchar 32) false
      ∷ column "cascade_targets" jsonb true
      ∷ column "error_message" ColumnType.text true
      ∷ column "retry_count" integer false
      ∷ column "max_retries" integer false
      ∷ column "next_run_at" timestamp true
      ∷ column "completed_at" timestamp true
      ∷ default "now()" (column "created_at" timestamp false)
      ∷ [];
  indexed = "artifact_id" ∷ "status" ∷ [];
}

abbrev pub metadata : List Model
metadata =
    organizations ∷ users ∷ devices ∷ sessions ∷ jobs ∷ workflow_events ∷ artifacts ∷ audit_logs
    ∷ deletion_jobs ∷ []
