-- ===== src/Migrations/Schema.antt =====
-- The catalog of a PostgreSQL database as the revisions of backend/alembic change it, and the
-- statements of alembic's `op`.
pub mod Tables
pub mod Statements
pub use ai_badge.Migrations.Schema.Tables.{
  ColumnType, OnDelete, Reference, Column, Index, Table, Catalog, column, primary, unique, default,
  references, Problem, Outcome, Statement, then_run, ◌>>◌, after, with_rows, find_table, has_table,
  has_column, has_entry, has_index, alter, alter_column, name_reference, named, target_exists,
  targets_exist, uuid, text, integer, float, boolean, jsonb, timestamp, varchar, cascade, restrict,
  set_null, duplicate_table, undefined_table, duplicate_column, undefined_column, duplicate_index,
  undefined_index, dependent_objects, not_null_violation, foreign_key_violation, runtime_error,
  done, refused,
}
pub use ai_badge.Migrations.Schema.Statements.{
  all_columns, covers, drop_entry, without_index, refers_to, any_refers, has_dependents,
  remove_table, has_column_in, contains, constraint_like, foreign_key_like, is_constraint,
}
unfoldable pub use ai_badge.Migrations.Schema.Statements.{
  create_table, create_index, drop_index, drop_table, add_column, drop_column, set_nullable,
  drop_constraint, create_foreign_key,
}
