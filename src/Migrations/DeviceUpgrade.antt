-- ===== src/Migrations/DeviceUpgrade.antt =====
-- The third revision of backend/alembic as a whole, on databases of the first one as it is and as it
-- was, when device_id could be NULL and its foreign key was SET NULL.
use ai_badge.Prelude.{
  count_where, All, ◌≡◌, refl, ◌∙◌, Bool, true, false, some, List, arith, ltb, none, [], ◌∷◌, ◌++◌,
}
use ai_badge.Model.Rows.{Device, Session}
use ai_badge.Migrations.Schema.{
  Catalog, find_table, has_table, alter, Index, OnDelete, restrict, done, runtime_error, refused,
}
use ai_badge.Migrations.DeviceIds
use ai_badge.Migrations.DeviceIds.{lacks_device, backfill, fill, all_refer, virtual_device}
use ai_badge.Migrations.Alter.{find_table-alter, has_table-alter, alter_same}
use ai_badge.Migrations.Constraints.{sessions_table, become, constrain-done}
use ai_badge.Migrations.Backfill.{
  is_fillable, backfill-Filled, Filled-all, backfill_none, all_refer-backfill, Filled,
}

fill-done :
    (devices : List Device) (sessions : List Session)
    → All (λ s. is_fillable devices s ≡ true) sessions
    → fill devices sessions ≡ done (backfill devices sessions)
unfolding fill
fill-done devices sessions h =
    ground (arith, Filled-all (backfill-Filled devices sessions h), backfill_none devices sessions)

fill_again :
    (devices : List Device) (sessions : List Session)
    → count_where lacks_device sessions ≡ 0
    → fill devices sessions ≡ done sessions
unfolding fill
fill_again devices sessions h = rw h refl

-- On a database whose sessions table is that of the first revision, whatever the nullability of
-- device_id and the rule of its foreign key, and where each session has an existing device or its
-- user has the virtual one: the revision succeeds; each session keeps its device or, having none,
-- gets a device of its own user with that user's virtual key, and nothing else of it changes; no
-- session is left without; the column becomes NOT NULL and its foreign key RESTRICT, in that table
-- alone; and to run the revision once more changes nothing.
pub upgrade-Filled :
    (devices : List Device) (sessions : List Session) (c : Catalog) (nullable : Bool)
    (ondelete : OnDelete) (indexes : List Index)
    → find_table "sessions" c ≡ some (sessions_table nullable ondelete indexes)
    → has_table "devices" c ≡ true
    → all_refer devices sessions ≡ true
    → All (λ s. is_fillable devices s ≡ true) sessions
    → (c' : Catalog) × (sessions' : List Session) × (DeviceIds.upgrade devices c sessions
        ≡ done (c', sessions'))
      × Filled devices sessions sessions'
      × (count_where lacks_device sessions' ≡ 0)
      × (c' ≡ alter "sessions" (become false restrict indexes) c)
      × (DeviceIds.upgrade devices c' sessions' ≡ done (c', sessions'))
unfolding DeviceIds.upgrade
upgrade-Filled devices sessions c nullable ondelete indexes found has refer fillable =
    let filled = backfill-Filled devices sessions fillable in
    let all = Filled-all filled in
    let sound = all_refer-backfill devices sessions refer in
    let c' : Catalog = alter "sessions" (become false restrict indexes) c in
    let found' : find_table "sessions" c' ≡ some (sessions_table false restrict indexes) =
      find_table-alter "sessions" (become false restrict indexes) (λ t. refl) c ∙ rw found refl in
    let has' =
      has_table-alter "sessions" (become false restrict indexes) (λ t. refl) "devices" c ∙ has in
    (
      c',
      backfill devices sessions,
      rw
          (
            fill-done devices sessions fillable,
            all,
            sound,
            constrain-done c nullable ondelete indexes found has,
          )
          refl,
      filled,
      all,
      refl,
      rw
          (
            fill_again devices (backfill devices sessions) all,
            all,
            sound,
            constrain-done c' false restrict indexes found' has',
            alter_same "sessions" (become false restrict indexes) c' _ found' refl,
          )
          refl,
    )

count_where_pos {ℓ} :
    {A : Type ℓ} (p : A → Bool) (xs ys : List A) (y : A)
    → p y ≡ true
    → ltb 0 (count_where p (xs ++ y ∷ ys)) ≡ true
count_where_pos p [] ys y h = rw h (ground arith)
count_where_pos p (x ∷ xs) ys y h = ground (arith, count_where_pos p xs ys y)

left_without :
    (devices : List Device) (before : List Session) (s : Session) (later : List Session)
    → lacks_device s ≡ true
    → virtual_device devices s ≡ none
    → backfill devices (before ++ s ∷ later) ≡ backfill devices before ++ s ∷ backfill devices later
unfolding backfill
left_without devices [] s later lacks missing = rw (lacks, missing) refl
left_without devices (b ∷ before) s later lacks missing =
    rw (left_without devices before s later lacks missing) refl

-- Where some session has no device and its user has no virtual one, the revision raises its
-- RuntimeError, whatever the schema and the other sessions are: it goes no further, and makes no
-- column NOT NULL.
pub upgrade-stuck :
    (devices : List Device) (before : List Session) (s : Session) (later : List Session)
    (c : Catalog)
    → lacks_device s ≡ true
    → virtual_device devices s ≡ none
    → DeviceIds.upgrade devices c (before ++ s ∷ later)
      ≡ refused (runtime_error "Cannot backfill session(s) with device_id IS NULL")
unfolding DeviceIds.upgrade fill
upgrade-stuck devices before s later c lacks missing =
    rw
      (
        count_where_pos lacks_device before later s lacks,
        left_without devices before s later lacks missing,
        count_where_pos lacks_device (backfill devices before) (backfill devices later) s lacks,
      )
      refl
