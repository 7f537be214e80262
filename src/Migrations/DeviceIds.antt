-- ===== src/Migrations/DeviceIds.antt =====
-- backend/alembic/versions/003_sessions_device_id_not_null.py: every session gets a device, and its
-- column and foreign key say so.
use ai_badge.Prelude.{
  ltb, if◌then◌else◌, ◌⊕◌, decimal, string_eq, nat_eq, ◌==◌, find, update_where, count_where, ℕ,
  String, Bool, true, false, not, ◌&&◌, Option, none, some, List, [], ◌∷◌,
}
use ai_badge.Model.Rows.{Device, Session, opt_eq, key_eq}
use ai_badge.Migrations.Schema.{
  Catalog, Statement, with_rows, find_table, set_nullable, foreign_key_like, drop_constraint,
  create_foreign_key, Column, Table, restrict, runtime_error, Outcome, done, refused, ◌>>◌,
}

-- `device_id IS NULL`
abbrev pub lacks_device : Session → Bool
lacks_device s = elim s.device_id [ none ↦ true | some d ↦ false ]

-- The device that registration gives to a user: device_key is 'virtual-' and the user's identifier.
abbrev pub virtual_device : List Device → Session → Option Device
virtual_device devices s =
    find (λ d. d.user_id == s.user_id && d.device_key == "virtual-" ⊕ decimal s.user_id) devices

abbrev pub assign : Option Device → Session → Session
assign none s = s
assign (some d) s = record s { device_id = some d.id }

-- Step 2a: UPDATE sessions ... FROM devices. A device_key is unique, so one device fits at most.
unfoldable pub backfill : List Device → List Session → List Session
backfill devices = update_where lacks_device (λ s. assign (virtual_device devices s) s)

-- Steps 1 and 2: the sessions, or the RuntimeError over those that are left. Its text lists them.
unfoldable pub fill : List Device → List Session → Outcome (List Session)
unfolding backfill
fill devices sessions =
    if ltb 0 (count_where lacks_device sessions)
    then (if ltb 0 (count_where lacks_device (backfill devices sessions))
        then refused (runtime_error "Cannot backfill session(s) with device_id IS NULL")
        else done (backfill devices sessions))
    else done sessions

abbrev pub is_nullable : String → Option Column → Bool
is_nullable name none = false
is_nullable name (some k) = k.nullable

abbrev pub columns_of : Option Table → List Column
columns_of none = []
columns_of (some t) = t.columns

abbrev pub find_column : String → List Column → Option Column
find_column name columns = find (λ k. k.name == name) columns

-- Step 3.
unfoldable pub require_device : Bool → Statement
require_device filled c =
    if is_nullable "device_id" (find_column "device_id" (columns_of (find_table "sessions" c)))
    then set_nullable "sessions" "device_id" false filled c
    else done c

-- Each device_id is that of a device.
abbrev pub refers : List Device → Option ℕ → Bool
refers devices none = true
refers devices (some i) = elim (find (λ d. d.id == i) devices) [ none ↦ false | some d ↦ true ]

abbrev pub all_refer : List Device → List Session → Bool
all_refer devices [] = true
all_refer devices (s ∷ ss) = refers devices s.device_id && all_refer devices ss

abbrev pub recreate : Option String → Bool → Statement
recreate none sound = done
recreate (some name) sound = do
  drop_constraint name "sessions"
  create_foreign_key name "sessions" "devices" "device_id" restrict sound

-- Step 4.
unfoldable pub restrict_device : Bool → Statement
restrict_device sound c =
    recreate (foreign_key_like "device_id" (columns_of (find_table "sessions" c))) sound c

unfoldable pub constrain : Bool → Bool → Statement
unfolding require_device restrict_device
constrain filled sound = do require_device filled; restrict_device sound

abbrev pub with_sessions :
    List Device → Outcome (List Session) → Catalog → Outcome (Catalog × List Session)
with_sessions devices (refused p) c = refused p
with_sessions devices (done sessions) c =
    with_rows sessions
      (constrain (not (ltb 0 (count_where lacks_device sessions))) (all_refer devices sessions) c)

unfoldable pub upgrade : List Device → Catalog → List Session → Outcome (Catalog × List Session)
unfolding fill constrain
upgrade devices c sessions = with_sessions devices (fill devices sessions) c
