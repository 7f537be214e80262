-- ===== src/Migrations/Alter.antt =====
-- What a change of one table leaves to be found.
use ai_badge.Prelude.{
  string_eq, nat_eq, ◌==◌, omap, String, ◌≡◌, refl, true, false, some, [], ◌∷◌, arith,
}
use ai_badge.Migrations.Schema.{Catalog, find_table, has_table, alter, Table}

pub has_table_of_find :
    (name : String) (c : Catalog) (t : Table) → find_table name c ≡ some t → has_table name c ≡ true
has_table_of_find name [] t h = cc
has_table_of_find name (u ∷ us) t h = ground (arith, has_table_of_find name us t)

module _ (name : String) (f : Table → Table) (keep : (t : Table) → (f t).name ≡ t.name) where
  pub find_table-alter :
      (c : Catalog) → find_table name (alter name f c) ≡ omap f (find_table name c)
  find_table-alter [] = refl
  find_table-alter (t ∷ ts) = ground (arith, keep t, find_table-alter ts)

  pub has_table-alter :
      (other : String) (c : Catalog) → has_table other (alter name f c) ≡ has_table other c
  has_table-alter other [] = refl
  has_table-alter other (t ∷ ts) = ground (arith, keep t, has_table-alter other ts)

  pub find_table-alter_other :
      (other : String) (c : Catalog)
      → (name == other) ≡ false
      → find_table other (alter name f c) ≡ find_table other c
  find_table-alter_other other [] ne = refl
  find_table-alter_other other (t ∷ ts) ne = ground (
    arith,
    keep t,
    find_table-alter_other other ts,
    string_eq.same_iff t.name name,
    string_eq.same_iff t.name other,
  )

  pub alter-alter :
      (g : Table → Table) (c : Catalog)
      → alter name g (alter name f c) ≡ alter name (λ t. g (f t)) c
  alter-alter g [] = refl
  alter-alter g (t ∷ ts) = ground (arith, keep t, alter-alter g ts)

pub alter_same :
    (name : String) (f : Table → Table) (c : Catalog) (t : Table)
    → find_table name c ≡ some t
    → f t ≡ t
    → alter name f c ≡ c
alter_same name f [] t h e = refl
alter_same name f (u ∷ us) t h e = ground (arith, alter_same name f us t)

pub alter_congr :
    (name : String) (f g : Table → Table) (c : Catalog) (t : Table)
    → find_table name c ≡ some t
    → f t ≡ g t
    → alter name f c ≡ alter name g c
alter_congr name f g [] t h e = refl
alter_congr name f g (u ∷ us) t h e = ground (arith, alter_congr name f g us t)
