-- ===== src/Migrations/Deployment.antt =====
-- The revisions of backend/alembic on a database that has none of the program's tables, against the
-- tables that the ORM classes declare.
use text.Mathlib.Text.{starts_with}
use ai_badge.Prelude.{
  string_eq, nat_eq, ◌==◌, String, ◌≡◌, refl, Bool, true, false, ◌||◌, List, [], ◌∷◌, map,
}
use ai_badge.Migrations.Schema.{
  Catalog, has_table, has_index, named, create_table, create_index, has_dependents, Column, Index,
  Table, done, after, drop_table,
}
use ai_badge.Migrations.Initial
use ai_badge.Migrations.Metadata
use ai_badge.Migrations.Metadata.{
  Model, organizations, users, devices, sessions, jobs, workflow_events, artifacts, audit_logs,
  deletion_jobs,
}

abbrev pub is_model : String → List Model → Bool
is_model name [] = false
is_model name (m ∷ ms) = m.tablename == name || is_model name ms

-- No table of the database has the name of a model, none refers to one, and no index of it is named
-- as those of the revisions are.
pub record IsFresh (c : Catalog) : Type 0 where
  pub tables : (n : String) → is_model n Metadata.metadata ≡ true → has_table n c ≡ false
  pub indexes : (n : String) → starts_with n "ix_" ≡ true → has_index n c ≡ false
  pub unreferenced : (n : String) → is_model n Metadata.metadata ≡ true → has_dependents n c ≡ false

-- A table as the first revision leaves it, its last index first.
abbrev pub table : String → List Column → List Index → Table
table name columns indexes = record {
  name = name;
  columns = map (named name) columns;
  indexes = indexes;
}

abbrev pub with_organizations : Catalog → Catalog
with_organizations c =
    table "organizations" Initial.organizations
      (record { name = "ix_organizations_slug"; columns = "slug" ∷ [] } ∷ [])
    ∷ c

abbrev pub with_users : Catalog → Catalog
with_users c =
    table "users" Initial.users (
      record { name = "ix_users_email"; columns = "email" ∷ [] }
      ∷ record { name = "ix_users_org_id"; columns = "org_id" ∷ [] }
      ∷ [])
    ∷ with_organizations c

abbrev pub with_devices : Catalog → Catalog
with_devices c =
    table "devices" Initial.devices
      (record { name = "ix_devices_user_id"; columns = "user_id" ∷ [] } ∷ [])
    ∷ with_users c

abbrev pub with_sessions : Catalog → Catalog
with_sessions c =
    table "sessions" Initial.sessions (
      record { name = "ix_sessions_device_id"; columns = "device_id" ∷ [] }
      ∷ record { name = "ix_sessions_user_id"; columns = "user_id" ∷ [] }
      ∷ [])
    ∷ with_devices c

abbrev pub with_jobs : Catalog → Catalog
with_jobs c =
    table "jobs" Initial.jobs (
      record { name = "ix_jobs_poll"; columns = "status" ∷ "next_run_at" ∷ "priority" ∷ [] }
      ∷ record { name = "ix_jobs_status"; columns = "status" ∷ [] }
      ∷ record { name = "ix_jobs_job_type"; columns = "job_type" ∷ [] }
      ∷ record { name = "ix_jobs_session_id"; columns = "session_id" ∷ [] }
      ∷ [])
    ∷ with_sessions c

abbrev pub with_workflow_events : Catalog → Catalog
with_workflow_events c =
    table "workflow_events" Initial.workflow_events
      (record { name = "ix_workflow_events_job_id"; columns = "job_id" ∷ [] } ∷ [])
    ∷ with_jobs c

abbrev pub with_artifacts : Catalog → Catalog
with_artifacts c =
    table "artifacts" Initial.artifacts (
      record { name = "ix_artifacts_status"; columns = "status" ∷ [] }
      ∷ record { name = "ix_artifacts_job_id"; columns = "job_id" ∷ [] }
      ∷ record { name = "ix_artifacts_session_id"; columns = "session_id" ∷ [] }
      ∷ [])
    ∷ with_workflow_events c

abbrev pub with_audit_logs : Catalog → Catalog
with_audit_logs c =
    table "audit_logs" Initial.audit_logs (
      record { name = "ix_audit_logs_resource_type"; columns = "resource_type" ∷ [] }
      ∷ record { name = "ix_audit_logs_action"; columns = "action" ∷ [] }
      ∷ record { name = "ix_audit_logs_user_id"; columns = "user_id" ∷ [] }
      ∷ [])
    ∷ with_artifacts c

abbrev pub with_deletion_jobs : Catalog → Catalog
with_deletion_jobs c =
    table "deletion_jobs" Initial.deletion_jobs (
      record { name = "ix_deletion_jobs_status"; columns = "status" ∷ [] }
      ∷ record { name = "ix_deletion_jobs_artifact_id"; columns = "artifact_id" ∷ [] }
      ∷ [])
    ∷ with_audit_logs c

module _ (c : Catalog) (fresh : IsFresh c) where
  create_organizations-done : Initial.create_organizations (c) ≡ done (with_organizations c)
  unfolding Initial.create_organizations create_table create_index
  create_organizations-done =
      rw (fresh.tables "organizations" refl, fresh.indexes "ix_organizations_slug" refl) refl

  create_users-done : Initial.create_users (with_organizations c) ≡ done (with_users c)
  unfolding Initial.create_users create_table create_index
  create_users-done =
      rw
        (
          fresh.tables "users" refl,
          fresh.indexes "ix_users_org_id" refl,
          fresh.indexes "ix_users_email" refl,
        )
        refl

  create_devices-done : Initial.create_devices (with_users c) ≡ done (with_devices c)
  unfolding Initial.create_devices create_table create_index
  create_devices-done =
      rw (fresh.tables "devices" refl, fresh.indexes "ix_devices_user_id" refl) refl

  create_sessions-done : Initial.create_sessions (with_devices c) ≡ done (with_sessions c)
  unfolding Initial.create_sessions create_table create_index
  create_sessions-done =
      rw
        (
          fresh.tables "sessions" refl,
          fresh.indexes "ix_sessions_user_id" refl,
          fresh.indexes "ix_sessions_device_id" refl,
        )
        refl

  create_jobs-done : Initial.create_jobs (with_sessions c) ≡ done (with_jobs c)
  unfolding Initial.create_jobs create_table create_index
  create_jobs-done =
      rw
        (
          fresh.tables "jobs" refl,
          fresh.indexes "ix_jobs_session_id" refl,
          fresh.indexes "ix_jobs_job_type" refl,
          fresh.indexes "ix_jobs_status" refl,
          fresh.indexes "ix_jobs_poll" refl,
        )
        refl

  create_workflow_events-done :
      Initial.create_workflow_events (with_jobs c) ≡ done (with_workflow_events c)
  unfolding Initial.create_workflow_events create_table create_index
  create_workflow_events-done =
      rw (fresh.tables "workflow_events" refl, fresh.indexes "ix_workflow_events_job_id" refl) refl

  create_artifacts-done :
      Initial.create_artifacts (with_workflow_events c) ≡ done (with_artifacts c)
  unfolding Initial.create_artifacts create_table create_index
  create_artifacts-done =
      rw
        (
          fresh.tables "artifacts" refl,
          fresh.indexes "ix_artifacts_session_id" refl,
          fresh.indexes "ix_artifacts_job_id" refl,
          fresh.indexes "ix_artifacts_status" refl,
        )
        refl

  create_audit_logs-done : Initial.create_audit_logs (with_artifacts c) ≡ done (with_audit_logs c)
  unfolding Initial.create_audit_logs create_table create_index
  create_audit_logs-done =
      rw
        (
          fresh.tables "audit_logs" refl,
          fresh.indexes "ix_audit_logs_user_id" refl,
          fresh.indexes "ix_audit_logs_action" refl,
          fresh.indexes "ix_audit_logs_resource_type" refl,
        )
        refl

  create_deletion_jobs-done :
      Initial.create_deletion_jobs (with_audit_logs c) ≡ done (with_deletion_jobs c)
  unfolding Initial.create_deletion_jobs create_table create_index
  create_deletion_jobs-done =
      rw
        (
          fresh.tables "deletion_jobs" refl,
          fresh.indexes "ix_deletion_jobs_artifact_id" refl,
          fresh.indexes "ix_deletion_jobs_status" refl,
        )
        refl

  -- The first revision adds its nine tables to such a database.
  pub upgrade-done : Initial.upgrade c ≡ done (with_deletion_jobs c)
  unfolding Initial.upgrade
  upgrade-done =
      rw
        (
          create_organizations-done, create_users-done, create_devices-done, create_sessions-done,
          create_jobs-done, create_workflow_events-done, create_artifacts-done,
          create_audit_logs-done, create_deletion_jobs-done,
        )
        refl

  -- Undoing the first revision gives back the database as it was.
  pub downgrade-upgrade : after (Initial.upgrade c) Initial.downgrade ≡ done c
  unfolding Initial.downgrade drop_table
  downgrade-upgrade =
      rw
        (
          upgrade-done,
          fresh.unreferenced "deletion_jobs" refl,
          fresh.unreferenced "audit_logs" refl,
          fresh.unreferenced "artifacts" refl,
          fresh.unreferenced "workflow_events" refl,
          fresh.unreferenced "jobs" refl,
          fresh.unreferenced "sessions" refl,
          fresh.unreferenced "devices" refl,
          fresh.unreferenced "users" refl,
          fresh.unreferenced "organizations" refl,
        )
        refl
