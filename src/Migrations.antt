-- ===== src/Migrations.antt =====
-- backend/alembic: the revisions that build and change the database's schema, and the rows that
-- they rewrite.
pub mod Schema
pub mod Initial
pub mod Metadata
pub mod WorkflowEvents
pub mod DeviceIds
pub mod Deployment
pub mod Agreement
pub mod Events
pub mod Alter
pub mod Constraints
pub mod Backfill
pub mod DeviceUpgrade
