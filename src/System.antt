-- ===== src/System.antt =====
-- The whole program: the routes that backend/app/main.py mounts, each request in a transaction of
-- its own behind get_current_user, and the worker process beside them.
pub mod Validity
pub mod Ledger
pub mod Finality
pub mod Atomicity
use ai_badge.Prelude.{ℕ, ◌+◌, String, Bool, Option, List, [], ◌∷◌}
use ai_badge.Model.{Action, pure, ◌>>=◌, request, Db, World, ◌>>◌}
use ai_badge.Auth.Crypto.{Crypto}
use ai_badge.Auth
use ai_badge.Auth.Router.{RegisterRequest, LoginRequest}
use ai_badge.Sessions.Schemas.{SessionCreateRequest}
use ai_badge.Sessions
use ai_badge.Artifacts
use ai_badge.Audit
use ai_badge.Artifacts.Router.{ArtifactUpdateRequest, ReviewRequest}
use ai_badge.Agents.Providers.{Providers}
use ai_badge.Agents.Registry.{handlers}
use ai_badge.Orchestrator.Worker.{send_heartbeat, poll_cycle, Tick}

-- The routes behind authentication. A path parameter is none where it is no UUID.
pub data Route : Type 0 where
  create_session : SessionCreateRequest → Route
  list_sessions : ℕ → ℕ → Route
  get_session : Option ℕ → Route
  update_consent : Option ℕ → Bool → Route
  update_session_status : Option ℕ → String → Route
  cancel_session : Option ℕ → Route
  retract_session : Option ℕ → Route
  -- the session, and the file's name, content type and content
  upload_audio : Option ℕ → Option String → Option String → List ℕ → Route
  list_artifacts : ℕ → ℕ → Route
  get_artifact : Option ℕ → Route
  update_artifact : Option ℕ → ArtifactUpdateRequest → Route
  review_artifact : Option ℕ → ReviewRequest → Route
  publish_artifact : Option ℕ → Route
  list_audit_logs : Option ℕ → ℕ → ℕ → Route

-- The response body is left out.
abbrev pub ignore : {A : Type 0} → Action A → Action Unit
ignore m = m >>= λ _. pure tt

unfoldable pub dispatch : Providers → (String → String) → Route → ℕ → Action Unit
dispatch p lower (Route.create_session body) uid = ignore (Sessions.Router.create_session body uid)
dispatch p lower (Route.list_sessions limit offset) uid =
    ignore (Sessions.Router.list_sessions uid limit offset)
dispatch p lower (Route.get_session sid) uid = ignore (Sessions.Router.get_session sid uid)
dispatch p lower (Route.update_consent sid consent) uid =
    ignore (Sessions.Router.update_consent sid consent uid)
dispatch p lower (Route.update_session_status sid status) uid =
    ignore (Sessions.Router.update_session_status sid status uid)
dispatch p lower (Route.cancel_session sid) uid = ignore (Sessions.Router.cancel_session sid uid)
dispatch p lower (Route.retract_session sid) uid =
    ignore (Sessions.Router.retract_session_endpoint sid uid)
dispatch p lower (Route.list_artifacts limit offset) uid =
    ignore (Artifacts.Router.list_artifacts limit offset)
dispatch p lower (Route.get_artifact aid) uid = ignore (Artifacts.Router.get_artifact aid)
dispatch p lower (Route.update_artifact aid body) uid =
    ignore (Artifacts.Router.update_artifact aid body)
dispatch p lower (Route.review_artifact aid body) uid =
    ignore (Artifacts.Router.review_artifact aid body uid)
dispatch p lower (Route.publish_artifact aid) uid = ignore (Artifacts.Router.publish_artifact aid)
dispatch p lower (Route.upload_audio sid filename content_type content) uid =
    ignore (
      Sessions.Upload.upload_audio lower p.audio_storage_path sid filename content_type content uid)
dispatch p lower (Route.list_audit_logs filter limit offset) uid =
    ignore (Audit.Listing.list_audit_logs filter limit offset)

-- What happens next: a request arrives, the worker takes a turn, or a heartbeat fires.
pub data Event : Type 0 where
  register : RegisterRequest → Event
  login : LoginRequest → Event
  call : String → Route → Event
  turn : Tick → Event
  heartbeat : ℕ → Event
  -- time passes
  wait : ℕ → Event

module _ (c : Crypto) (lower lower_strip : String → String) (p : Providers) where
  unfoldable pub authenticated : String → Route → Action Unit
  authenticated token route = do
    user ← Auth.Router.get_current_user c lower_strip token
    dispatch p lower route user.id

  unfoldable pub step : Event → World → World
  unfolding authenticated
  step (Event.register body) w = (request (ignore (Auth.Router.register c lower_strip body)) w).1
  step (Event.login body) w = (request (ignore (Auth.Router.login c lower_strip body)) w).1
  step (Event.call token route) w = (request (authenticated token route) w).1
  step (Event.turn t) w = poll_cycle (handlers p) t.locks (record w { now = t.time })
  step (Event.heartbeat jid) w = send_heartbeat jid w
  step (Event.wait seconds) w = record w { now = w.now + seconds }

  unfoldable pub run : List Event → World → World
  unfolding step
  run [] w = w
  run (e ∷ es) w = run es (step e w)

abbrev pub empty_db : Db
empty_db = record {
  organizations = [];
  users = [];
  devices = [];
  sessions = [];
  jobs = [];
  workflow_events = [];
  artifacts = [];
  audit_logs = [];
  deletion_jobs = [];
}

-- A fresh deployment.
abbrev pub empty_world : World
empty_world = record { db = empty_db; saved = empty_db; files = []; fresh = 0; now = 0 }
