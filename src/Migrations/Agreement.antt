-- ===== src/Migrations/Agreement.antt =====
-- All revisions of backend/alembic, one after the other, against the models of backend/app/models.
use ai_badge.Prelude.{
  string_eq, nat_eq, ◌==◌, length, All, String, ◌≡◌, Bool, true, false, ◌||◌, Option, none, some,
  List, [], ◌∷◌, map, refl, arith,
}
use ai_badge.Model.Rows.{opt_eq, key_eq}
use ai_badge.Migrations.Schema.{
  Catalog, find_table, named, Column, Index, Table, Outcome, done, refused, create_index,
  add_column, set_nullable, drop_constraint, create_foreign_key, after,
}
use ai_badge.Migrations.Initial
use ai_badge.Migrations.WorkflowEvents
use ai_badge.Migrations.DeviceIds
use ai_badge.Migrations.DeviceIds.{columns_of, find_column}
use ai_badge.Migrations.Metadata
use ai_badge.Migrations.Metadata.{Model}
use ai_badge.Migrations.Deployment.{upgrade-done, IsFresh}

-- `alembic upgrade head` on a database without rows of the program.
unfoldable pub deploy : Catalog → Outcome Catalog
deploy c = after (Initial.upgrade c) λ c1.
    after (WorkflowEvents.upgrade c1 []) λ r. after (DeviceIds.upgrade [] r.0 []) λ s. done s.0

-- The result is one, and `P` holds of it.
abbrev pub Yields : {A : Type 0} → (A → Type 0) → Outcome A → Type 0
Yields P (done a) = P a
Yields P (refused p) = ⊥

-- A column without the default of the server: a model states some of these as its own.
abbrev pub shape : Column → Column
shape k = record k { server_default = none }

abbrev pub on_one_column : String → List Index → Bool
on_one_column name [] = false
on_one_column name (i ∷ is) = is_only i.columns || on_one_column name is
  where
    is_only : List String → Bool
    is_only [] = false
    is_only (k ∷ []) = k == name
    is_only (k ∷ l ∷ ks) = false

abbrev pub is_indexed : String → Option Table → Bool
is_indexed name none = false
is_indexed name (some t) = on_one_column name t.indexes

-- The database has the table of a model: as many columns, each of the model's with its type,
-- nullability, uniqueness and foreign key, and an index on each column that asks for one.
abbrev pub Provides : Catalog → Model → Type 0
Provides c m =
    (length (columns_of (find_table m.tablename c)) ≡ length m.columns)
    × All
        (λ k.
          find_column k.name (map shape (columns_of (find_table m.tablename c)))
          ≡ some (shape (named m.tablename k)))
        m.columns
    × All (λ n. is_indexed n (find_table m.tablename c) ≡ true) m.indexed

-- The three revisions succeed on any database that has no table, index or foreign key of theirs, and
-- leave there what the ORM classes declare: each of the nine tables with exactly the columns of its
-- model, each with the model's type, length, nullability, key, uniqueness and foreign key (its rule
-- of deletion and the name of its constraint too), and an index of its own for each column that
-- the model wants indexed.
pub deploy-Provides :
    (c : Catalog) → IsFresh c → Yields (λ c'. All (Provides c') Metadata.metadata) (deploy c)
unfolding deploy WorkflowEvents.upgrade DeviceIds.upgrade set_nullable add_column create_index
    drop_constraint create_foreign_key
deploy-Provides c fresh =
    rw
      (
        upgrade-done c fresh,
        fresh.indexes "ix_workflow_events_session_id" refl,
        fresh.indexes "ix_workflow_events_artifact_id" refl,
        fresh.indexes "ix_workflow_events_resource_type" refl,
      )
      (ground arith)
