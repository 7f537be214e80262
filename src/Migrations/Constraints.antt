-- ===== src/Migrations/Constraints.antt =====
-- The third revision of backend/alembic on the schema: the column device_id and its foreign key.
use ai_badge.Prelude.{
  ◌≡◌, Bool, true, false, some, List, map, update_where, refl, sym, ap, ◌∙◌, none,
}
use ai_badge.Migrations.Schema.{
  Catalog, find_table, has_table, alter, alter_column, named, set_nullable, drop_constraint,
  create_foreign_key, Index, Table, OnDelete, restrict, done, is_constraint,
}
use ai_badge.Migrations.Initial
use ai_badge.Migrations.DeviceIds.{require_device, restrict_device, constrain}
use ai_badge.Migrations.Alter.{
  has_table_of_find, find_table-alter, has_table-alter, alter-alter, alter_same, alter_congr,
}

-- The table of sessions with a device_id that may be NULL or not, and the rule of its foreign key.
abbrev pub sessions_table : Bool → OnDelete → List Index → Table
sessions_table nullable ondelete indexes = record {
  name = "sessions";
  columns =
      alter_column "device_id"
        (λ k. record k {
          nullable = nullable;
          references = some (record {
            constraint = "sessions_device_id_fkey";
            target = "devices";
            ondelete = ondelete;
          });
        })
        (map (named "sessions") Initial.sessions);
  indexes = indexes;
}

-- A table with the columns and indexes of `sessions_table`.
abbrev pub become : Bool → OnDelete → List Index → Table → Table
become nullable ondelete indexes t = record t {
  columns = (sessions_table nullable ondelete indexes).columns;
  indexes = indexes;
}

require_device-done :
    (c : Catalog) (nullable : Bool) (ondelete : OnDelete) (indexes : List Index)
    → find_table "sessions" c ≡ some (sessions_table nullable ondelete indexes)
    → require_device true c ≡ done (alter "sessions" (become false ondelete indexes) c)
unfolding require_device set_nullable
require_device-done c true ondelete indexes found =
    rw found (ap done (alter_congr "sessions" _ _ c _ found refl))
require_device-done c false ondelete indexes found =
    rw found (ap done (sym (alter_same "sessions" _ c _ found refl)))

-- The table without its foreign key on device_id.
abbrev unlink : Table → Table
unlink t = record t {
  columns =
      update_where (λ k. is_constraint "sessions_device_id_fkey" k.references)
        (λ k. record k { references = none }) t.columns;
}

restrict_device-done :
    (c : Catalog) (nullable : Bool) (ondelete : OnDelete) (indexes : List Index)
    → find_table "sessions" c ≡ some (sessions_table nullable ondelete indexes)
    → has_table "devices" c ≡ true
    → restrict_device true c ≡ done (alter "sessions" (become nullable restrict indexes) c)
unfolding restrict_device drop_constraint create_foreign_key
restrict_device-done c nullable ondelete indexes found devices =
    rw
      (
        found,
        has_table_of_find "sessions" c _ found,
        has_table-alter "sessions" unlink (λ t. refl) "devices" c,
        devices,
        find_table-alter "sessions" unlink (λ t. refl) c,
        found,
      )
      (ap done
        (alter-alter "sessions" unlink (λ t. refl) _ c ∙ alter_congr "sessions" _ _ c _ found refl))

-- On sessions that all have a device, the column becomes NOT NULL and its foreign key RESTRICT.
pub constrain-done :
    (c : Catalog) (nullable : Bool) (ondelete : OnDelete) (indexes : List Index)
    → find_table "sessions" c ≡ some (sessions_table nullable ondelete indexes)
    → has_table "devices" c ≡ true
    → constrain true true c ≡ done (alter "sessions" (become false restrict indexes) c)
unfolding constrain
constrain-done c nullable ondelete indexes found devices =
    let step : Table → Table = become false ondelete indexes in
    rw (require_device-done c nullable ondelete indexes found) (
      restrict_device-done (alter "sessions" step c) false ondelete indexes
        (find_table-alter "sessions" step (λ t. refl) c ∙ rw found refl)
        (has_table-alter "sessions" step (λ t. refl) "devices" c ∙ devices)
      ∙ ap done (alter-alter "sessions" step (λ t. refl) _ c))
