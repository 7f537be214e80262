-- ===== src/Examples/Migrations.antt =====
-- The revisions on a database that holds alembic's own table, on two events, and on three sessions.

use ai_badge.Prelude.{
  Bool-cases, string_eq, nat_eq, ◌==◌, String, ◌≡◌, refl, inl, inr, Bool, true, false, not, ◌&&◌,
  ◌||◌, [], ◌∷◌, decimal, count_where, All, sym, subst, none, List, ◌++◌,
}
use ai_badge.Model.{
  SessionStatus, session_status_eq, job_status_eq, artifact_status_eq, opt_eq, key_eq,
}
use ai_badge.Model.Rows.{Device, Session, WorkflowEvent}
use ai_badge.Migrations.Schema.{
  Catalog, column, unique, has_table, varchar, alter, restrict, set_null, runtime_error, done,
  refused,
}
use ai_badge.Migrations.Initial
use ai_badge.Migrations.WorkflowEvents
use ai_badge.Migrations.WorkflowEvents.{InitialEvent, all_have_jobs, backfill}
use ai_badge.Migrations.DeviceIds
use ai_badge.Migrations.DeviceIds.{lacks_device}
use ai_badge.Migrations.Metadata
use ai_badge.Migrations.Deployment.{is_model, IsFresh, with_deletion_jobs, upgrade-done}
use ai_badge.Migrations.Agreement.{deploy, Yields, Provides, deploy-Provides}
use ai_badge.Migrations.Events.{downgrade-upgrade_rows}
use ai_badge.Migrations.Constraints.{sessions_table, become}
use ai_badge.Migrations.Backfill.{Filled}
use ai_badge.Migrations.DeviceUpgrade.{upgrade-Filled, upgrade-stuck}
use ai_badge.Examples.Data.{session_in}

abbrev versions : Catalog
versions =
    record {
      name = "alembic_version";
      columns = unique (column "version_num" (varchar 32) false) ∷ [];
      indexes = [];
    }
    ∷ []

versions-tables : (n : String) → is_model n Metadata.metadata ≡ true → has_table n versions ≡ false
versions-tables n h = elim (Bool-cases ("alembic_version" == n)) [
  | inl e ↦
      let same = (string_eq.same_iff "alembic_version" n).0 e in
      let no_model : is_model "alembic_version" Metadata.metadata ≡ true =
        subst (λ m. is_model m Metadata.metadata ≡ true) (sym same) h in
      cc
  | inr e ↦ rw e refl
]

versions-unreferenced : (b : Bool) → (not b && false || false) ≡ false
versions-unreferenced true = refl
versions-unreferenced false = refl

abbrev versions-IsFresh : IsFresh versions
versions-IsFresh = record {
  tables = versions-tables;
  indexes = λ n h. refl;
  unreferenced = λ n h. versions-unreferenced ("alembic_version" == n);
}

deploy-Provides_example : Yields (λ c'. All (Provides c') Metadata.metadata) (deploy versions)
deploy-Provides_example = deploy-Provides versions versions-IsFresh

abbrev two_events : List InitialEvent
two_events =
    record { id = 1; job_id = 20; event_type = "job_created"; event_data = none; created_at = 5 }
    ∷ record {
      id = 2;
      job_id = 20;
      event_type = "status_pending_to_running";
      event_data = none;
      created_at = 6;
    }
    ∷ []

downgrade-upgrade_rows_example :
    (c2 : Catalog) × (events : List WorkflowEvent) × (WorkflowEvents.upgrade
        (with_deletion_jobs versions)
        two_events
      ≡ done (c2, events))
    × All (λ e. (e.resource_type ≡ "job") × (e.resource_id ≡ e.job_id)) events
    × (WorkflowEvents.downgrade c2 events ≡ done (with_deletion_jobs versions, two_events))
downgrade-upgrade_rows_example =
    downgrade-upgrade_rows versions versions-IsFresh (with_deletion_jobs versions) two_events
      (upgrade-done versions versions-IsFresh)

abbrev phone : Device
phone = record {
  id = 3;
  user_id = 7;
  name = "virtual_phone_mic";
  device_key = "virtual-7";
  device_type = "virtual_phone_mic";
  status = "active";
  created_at = 1;
}

-- One session of user 7 with the device, and one without.
abbrev old_sessions : List Session
old_sessions =
    session_in SessionStatus.published
    ∷ record (session_in SessionStatus.idle) { id = 2; device_id = none }
    ∷ []

-- The table of sessions as the first revision once was, and that of devices.
abbrev old_catalog : Catalog
old_catalog =
    sessions_table true set_null []
    ∷ record { name = "devices"; columns = Initial.devices; indexes = [] }
    ∷ []

upgrade-Filled_example :
    (c' : Catalog) × (sessions' : List Session) × (DeviceIds.upgrade
        (phone ∷ [])
        old_catalog
        old_sessions
      ≡ done (c', sessions'))
    × Filled (phone ∷ []) old_sessions sessions'
    × (count_where lacks_device sessions' ≡ 0)
    × (c' ≡ alter "sessions" (become false restrict []) old_catalog)
    × (DeviceIds.upgrade (phone ∷ []) c' sessions' ≡ done (c', sessions'))
unfolding decimal
upgrade-Filled_example =
    upgrade-Filled (phone ∷ []) old_sessions old_catalog true set_null [] refl refl refl
      (refl, (refl, tt))

upgrade-stuck_example :
    DeviceIds.upgrade [] old_catalog
      ([] ++ record (session_in SessionStatus.idle) { device_id = none } ∷ [])
    ≡ refused (runtime_error "Cannot backfill session(s) with device_id IS NULL")
upgrade-stuck_example =
    upgrade-stuck [] [] (record (session_in SessionStatus.idle) { device_id = none }) [] old_catalog
      refl refl
