-- ===== src/Model/Effects.antt =====
-- The state that requests and workers act on, and actions over it: state passing with exceptions.
-- A write made before a raise stays in the open transaction; `request` is get_db of
-- backend/app/db/session.py, which commits or rolls back.
use ai_badge.Prelude.{if◌then◌else◌, ℕ, String, Bool, Option, none, some, List}
use ai_badge.Prelude.{◌≡◌}
use ai_badge.Model.Rows.{
  Organization, User, Device, Session, Job, WorkflowEvent, Artifact, AuditLog, DeletionJob,
}

-- The nine tables.
pub record Db : Type 0 where
  pub organizations : List Organization
  pub users : List User
  pub devices : List Device
  pub sessions : List Session
  pub jobs : List Job
  pub workflow_events : List WorkflowEvent
  pub artifacts : List Artifact
  pub audit_logs : List AuditLog
  pub deletion_jobs : List DeletionJob

-- `db` is what the open transaction sees, `saved` what is committed. `files` is the audio folder,
-- `fresh` the next identifier that uuid4 gives, `now` the clock of the current step.
pub record World : Type 0 where
  pub db : Db
  pub open db use *
  pub saved : Db
  pub files : List (String × List ℕ)
  pub fresh : ℕ
  pub now : ℕ

-- What handlers raise.
pub data Error : Type 0 where
  -- HTTPException(status_code, detail)
  http : ℕ → String → Error
  -- PolicyViolation(reason, level)
  policy_violation : String → String → Error
  value_error : String → Error
  -- a unique constraint refuses an INSERT
  integrity_error : Error
  -- scalar_one_or_none, scalar_one: more than one row
  multiple_results : Error
  -- scalar_one, refresh: no row
  no_result : Error
  not_implemented : String → Error

pub data Result (A : Type 0) : Type 0 where
  ok : A → Result A
  err : Error → Result A

abbrev pub Action : Type 0 → Type 0
Action A = World → Result A × World

module _ {A : Type 0} where
  unfoldable pub pure : A → Action A
  pure a w = (ok a, w)

  unfoldable pub raise : Error → Action A
  raise e w = (err e, w)

  unfoldable pub gets : (World → A) → Action A
  gets f w = (ok (f w), w)

  unfoldable pub or_raise : Option A → Error → Action A
  unfolding pure raise
  or_raise none e = raise e
  or_raise (some a) _ = pure a

unfoldable pub modify : (Db → Db) → Action Unit
modify f w = (ok tt, record w { db = f w.db })

unfoldable pub raise_if : Bool → Error → Action Unit
raise_if c e w = (if c then err e else ok tt, w)

abbrev pub continue : {A B : Type 0} → Result A → (A → Action B) → Action B
continue (ok a) f w = f a w
continue (err e) f w = (err e, w)

-- Opening this opens the actions above too.
infixl 5 ◌>>=◌
unfoldable pub ◌>>=◌ : {A B : Type 0} → Action A → (A → Action B) → Action B
unfolding pure raise gets or_raise modify raise_if
(m >>= next) w = let (r, w') = m w in continue r next w'

infixl 5 ◌>>◌
abbrev pub ◌>>◌ : {A B : Type 0} → Action A → Action B → Action B
first >> second = first >>= λ _. second

-- `session.commit()`, `session.rollback()`
unfoldable pub commit : Action Unit
commit w = (ok tt, record w { saved = w.db })

abbrev pub rollback : World → World
rollback w = record w { db = w.saved }

-- `get_db`: the transaction of one request.
abbrev pub settle : {A : Type 0} → Result A × World → Result A × World
settle (ok a, w) = (ok a, record w { saved = w.db })
settle (err e, w) = (err e, rollback w)

unfoldable pub request : {A : Type 0} → Action A → Action A
request m w = settle (m w)

-- The HTTP status that a raised error becomes: HTTPException carries it, the handler of
-- backend/app/main.py maps PolicyViolation to 403, and all else is a server error.
unfoldable pub status_code : Error → ℕ
status_code (http code _) = code
status_code (policy_violation _ _) = 403
status_code _ = 500

-- `str(e)`
abbrev pub message : Error → String
message (http code detail) = detail
message (policy_violation reason level) = reason
message (value_error text) = text
message integrity_error = "IntegrityError"
message multiple_results = "Multiple rows were found when one or none was required"
message no_result = "No row was found when one was required"
message (not_implemented text) = text

-- The writes of another transaction that opens, commits and touches no row that this one has
-- changed: this one sees them from then on.
abbrev pub elsewhere : (Db → Db) → World → World
elsewhere f w = record w { db = f w.db; saved = f w.saved }

-- A request that is answered with an HTTP error, and leaves the committed state.
abbrev pub Refused : {A : Type 0} → Action A → World → ℕ → Type 0
Refused m w code = (e : Error) × (request m w ≡ (err e, rollback w)) × (status_code e ≡ code)
