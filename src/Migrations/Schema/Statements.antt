-- ===== src/Migrations/Schema/Statements.antt =====
-- The statements of alembic's `op` that the revisions of backend/alembic use.
use package.text.Mathlib.Text.{starts_with}
use ai_badge.Prelude.{
  if◌then◌else◌, string_eq, nat_eq, ◌==◌, update_where, delete_where, or_else, String, Bool, true,
  false, not, ◌&&◌, ◌||◌, Option, none, some, List, [], ◌∷◌, ◌++◌, map,
}
use ai_badge.Migrations.Schema.Tables.{
  Catalog, column, Statement, find_table, has_table, has_column, has_entry, has_index, alter,
  alter_column, named, targets_exist, Reference, Column, Table, OnDelete, duplicate_table,
  undefined_table, duplicate_column, undefined_column, duplicate_index, undefined_index,
  dependent_objects, not_null_violation, foreign_key_violation, done, refused,
}

-- `op.create_table(name, *columns)`
unfoldable pub create_table : String → List Column → Statement
create_table name columns c =
    if has_table name c
    then refused (duplicate_table name)
    else if not (targets_exist c columns)
    then refused (undefined_table name)
    else done (record { name = name; columns = map (named name) columns; indexes = [] } ∷ c)

abbrev pub all_columns : List String → List Column → Bool
all_columns [] columns = true
all_columns (n ∷ ns) columns = has_column n columns && all_columns ns columns

abbrev pub covers : List String → Option Table → Bool
covers names none = false
covers names (some t) = all_columns names t.columns

-- `op.create_index(name, table, columns)`
unfoldable pub create_index : String → String → List String → Statement
create_index name table columns c =
    if has_index name c
    then refused (duplicate_index name)
    else if not (covers columns (find_table table c))
    then refused (undefined_column table)
    else done (
        alter table
          (λ t. record t { indexes = record { name = name; columns = columns } ∷ t.indexes }) c)

abbrev pub drop_entry : String → Table → Table
drop_entry name t = record t { indexes = delete_where (λ i. i.name == name) t.indexes }

abbrev pub without_index : String → Catalog → Catalog
without_index name [] = []
without_index name (t ∷ ts) =
    let rest = without_index name ts in
    if has_entry name t.indexes then drop_entry name t ∷ ts else t ∷ rest

-- `op.drop_index(name)`
unfoldable pub drop_index : String → Statement
drop_index name c =
    if has_index name c then done (without_index name c) else refused (undefined_index name)

abbrev pub refers_to : String → Option Reference → Bool
refers_to name none = false
refers_to name (some r) = r.target == name

abbrev pub any_refers : String → List Column → Bool
any_refers name [] = false
any_refers name (c ∷ cs) = refers_to name c.references || any_refers name cs

-- A table other than the named one has a foreign key to it.
abbrev pub has_dependents : String → Catalog → Bool
has_dependents name [] = false
has_dependents name (t ∷ ts) =
    not (t.name == name) && any_refers name t.columns || has_dependents name ts

abbrev pub remove_table : String → Catalog → Catalog
remove_table name [] = []
remove_table name (t ∷ ts) =
    let rest = remove_table name ts in if t.name == name then ts else t ∷ rest

-- `op.drop_table(name)`, which takes the table's indexes along
unfoldable pub drop_table : String → Statement
drop_table name c =
    if not (has_table name c)
    then refused (undefined_table name)
    else if has_dependents name c
    then refused (dependent_objects name)
    else done (remove_table name c)

abbrev pub has_column_in : String → Option Table → Bool
has_column_in name none = false
has_column_in name (some t) = has_column name t.columns

-- `op.add_column(table, column)`
unfoldable pub add_column : String → Column → Statement
add_column table column c =
    if not (has_table table c)
    then refused (undefined_table table)
    else if has_column_in column.name (find_table table c)
    then refused (duplicate_column column.name)
    else done (alter table (λ t. record t { columns = t.columns ++ column ∷ [] }) c)

-- `op.drop_column(table, column)`
unfoldable pub drop_column : String → String → Statement
drop_column table name c =
    if has_column_in name (find_table table c)
    then done
        (alter table (λ t. record t { columns = delete_where (λ k. k.name == name) t.columns }) c)
    else refused (undefined_column name)

-- `op.alter_column(table, column, nullable=...)` on rows of which `filled` says that none is NULL
unfoldable pub set_nullable : String → String → Bool → Bool → Statement
set_nullable table name nullable filled c =
    if not (has_column_in name (find_table table c))
    then refused (undefined_column name)
    else if not nullable && not filled
    then refused (not_null_violation name)
    else done (
        alter table
          (λ t. record t {
            columns = alter_column name (λ k. record k { nullable = nullable }) t.columns;
          })
          c)

-- `LIKE '%<part>%'`
abbrev pub contains : String → String → Bool
contains part String.[] = starts_with String.[] part
contains part (String.◌∷◌ c s) = starts_with (String.◌∷◌ c s) part || contains part s

-- `conname` of the first foreign key of a table whose name has a part, in the order of the columns
abbrev pub constraint_like : String → Option Reference → Option String
constraint_like part none = none
constraint_like part (some r) = if contains part r.constraint then some r.constraint else none

abbrev pub foreign_key_like : String → List Column → Option String
foreign_key_like part [] = none
foreign_key_like part (k ∷ ks) =
    or_else (constraint_like part k.references) (foreign_key_like part ks)

abbrev pub is_constraint : String → Option Reference → Bool
is_constraint name none = false
is_constraint name (some r) = r.constraint == name

-- `op.drop_constraint(name, table, type_="foreignkey")`
unfoldable pub drop_constraint : String → String → Statement
drop_constraint name table c =
    if has_table table c
    then done (
        alter table
          (λ t. record t {
            columns =
                update_where (λ k. is_constraint name k.references)
                  (λ k. record k { references = none }) t.columns;
          })
          c)
    else refused (undefined_table table)

-- `op.create_foreign_key(name, table, target, [column], ["id"], ondelete=...)` on rows of which
-- `sound` says that each refers to a row of the target
unfoldable pub create_foreign_key : String → String → String → String → OnDelete → Bool → Statement
create_foreign_key name table target column ondelete sound c =
    if not (has_table target c && has_column_in column (find_table table c))
    then refused (undefined_table target)
    else if not sound
    then refused (foreign_key_violation name)
    else done (
        alter table
          (λ t. record t {
            columns =
                alter_column column
                  (λ k. record k {
                    references =
                        some (record { constraint = name; target = target; ondelete = ondelete });
                  })
                  t.columns;
          })
          c)
