-- ===== src/Migrations/Schema/Tables.antt =====
-- The catalog of a PostgreSQL database: tables with their columns, foreign keys and indexes.

use ai_badge.Prelude.{
  if◌then◌else◌, ◌⊕◌, string_eq, nat_eq, ◌==◌, find, update_where, ℕ, String, Bool, true, false,
  ◌&&◌, ◌||◌, Option, none, some, List, [], ◌∷◌,
}

-- sqlalchemy's column types; `varchar` is String(n)
pub data ColumnType : Type 0 where
  uuid text integer float boolean jsonb timestamp : ColumnType
  varchar : ℕ → ColumnType

pub data OnDelete : Type 0 where
  cascade restrict set_null : OnDelete

-- ForeignKey("<target>.id", ondelete=...), with the name of its constraint
pub record Reference : Type 0 where
  pub constraint : String
  pub target : String
  pub ondelete : OnDelete

pub record Column : Type 0 where
  pub name : String
  pub type : ColumnType
  pub nullable : Bool
  pub primary_key : Bool
  pub unique : Bool
  pub references : Option Reference
  pub server_default : Option String

pub record Index : Type 0 where
  pub name : String
  pub columns : List String

pub record Table : Type 0 where
  pub name : String
  pub columns : List Column
  pub indexes : List Index

abbrev pub Catalog : Type 0
Catalog = List Table

-- Columns as `sa.Column` and `mapped_column` declare them.
abbrev pub column : String → ColumnType → Bool → Column
column name type nullable = record {
  name = name;
  type = type;
  nullable = nullable;
  primary_key = false;
  unique = false;
  references = none;
  server_default = none;
}

abbrev pub primary : String → ColumnType → Column
primary name type = record (column name type false) { primary_key = true }

abbrev pub unique : Column → Column
unique c = record c { unique = true }

abbrev pub default : String → Column → Column
default value c = record c { server_default = some value }

abbrev pub references : String → OnDelete → Column → Column
references target ondelete c = record c {
  references = some (record { constraint = ""; target = target; ondelete = ondelete });
}

-- What a statement answers: PostgreSQL's refusals, and the RuntimeError of a revision.
pub data Problem : Type 0 where
  duplicate_table undefined_table : String → Problem
  duplicate_column undefined_column : String → Problem
  duplicate_index undefined_index : String → Problem
  dependent_objects : String → Problem
  not_null_violation foreign_key_violation : String → Problem
  runtime_error : String → Problem

pub data Outcome (A : Type 0) : Type 0 where
  done : A → Outcome A
  refused : Problem → Outcome A

-- A statement, and one statement after another.
abbrev pub Statement : Type 0
Statement = Catalog → Outcome Catalog

abbrev pub then_run : Outcome Catalog → Statement → Outcome Catalog
then_run (done c) next = next c
then_run (refused p) next = refused p

infixl 5 ◌>>◌
abbrev pub ◌>>◌ : Statement → Statement → Statement
(first >> next) c = then_run (first c) next

abbrev pub after : {A B : Type 0} → Outcome A → (A → Outcome B) → Outcome B
after (done a) next = next a
after (refused p) next = refused p

-- The schema with the rows that a revision has rewritten.
abbrev pub with_rows : {A : Type 0} → A → Outcome Catalog → Outcome (Catalog × A)
with_rows rows (done c) = done (c, rows)
with_rows rows (refused p) = refused p

abbrev pub find_table : String → Catalog → Option Table
find_table name c = find (λ t. t.name == name) c

abbrev pub has_table : String → Catalog → Bool
has_table name [] = false
has_table name (t ∷ ts) = t.name == name || has_table name ts

abbrev pub has_column : String → List Column → Bool
has_column name [] = false
has_column name (c ∷ cs) = c.name == name || has_column name cs

abbrev pub has_entry : String → List Index → Bool
has_entry name [] = false
has_entry name (i ∷ is) = i.name == name || has_entry name is

-- The names of indexes are unique in the schema.
abbrev pub has_index : String → Catalog → Bool
has_index name [] = false
has_index name (t ∷ ts) = has_entry name t.indexes || has_index name ts

-- A change of the table with a name, which is unique.
abbrev pub alter : String → (Table → Table) → Catalog → Catalog
alter name f [] = []
alter name f (t ∷ ts) = let rest = alter name f ts in if t.name == name then f t ∷ ts else t ∷ rest

abbrev pub alter_column : String → (Column → Column) → List Column → List Column
alter_column name f cs = update_where (λ c. c.name == name) f cs

-- A foreign key that is given no name is named after its table and column.
abbrev pub name_reference : String → String → Option Reference → Option Reference
name_reference table name none = none
name_reference table name (some r) = some (record r { constraint = table ⊕ "_" ⊕ name ⊕ "_fkey" })

abbrev pub named : String → Column → Column
named table c = record c { references = name_reference table c.name c.references }

-- The targets of the foreign keys exist, or are the table itself.
abbrev pub target_exists : Catalog → Option Reference → Bool
target_exists c none = true
target_exists c (some r) = has_table r.target c

abbrev pub targets_exist : Catalog → List Column → Bool
targets_exist c [] = true
targets_exist c (k ∷ ks) = target_exists c k.references && targets_exist c ks
