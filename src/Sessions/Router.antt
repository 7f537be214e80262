-- ===== src/Sessions/Router.antt =====
-- backend/app/sessions/router.py: the requests on sessions. A path parameter is the outcome of
-- `uuid.UUID(session_id)`: `none` where the text is no UUID. Each handler runs inside `request`.
use ai_badge.Prelude.{
  ltb, if◌then◌else◌, ◌⊕◌, ◌==◌, nat_eq, string_eq, length, select, find, take, drop, order_by, ℕ,
  String, Bool, true, false, not, ◌&&◌, Option, none, some, List, [], ◌∷◌, map,
}
use ai_badge.Model.{
  value_error, session_status_eq, job_status_eq, artifact_status_eq, session_value, parse_status,
  SessionStatus, opt_eq, key_eq, Session, Action, pure, raise, gets, or_raise, raise_if, World,
  Error, http, integrity_error, write_session, refresh_session, add_session, ◌>>=◌, ◌>>◌,
}
use ai_badge.Audit.{session_entry, audit_write}
use ai_badge.Trust.Redlines.{is_none}
use ai_badge.Trust.Policy.{check_retract}
use ai_badge.Orchestrator.Service.{create_jobs_for_session}
use ai_badge.Sessions.Machine.{can_transition, in_set}
use ai_badge.Sessions.Service.{retract_session}
use ai_badge.Sessions.Schemas.{
  to_response, SessionCreateRequest, SessionResponse, SessionListResponse,
}

-- `Session.id == sid and Session.user_id == user_id`
abbrev pub is_own : ℕ → ℕ → Session → Bool
is_own sid user_id s = s.id == sid && s.user_id == user_id

unfoldable pub get_session_or_404 : Option ℕ → ℕ → Action Session
get_session_or_404 none user_id = raise (http 404 "Session not found")
get_session_or_404 (some sid) user_id = do
  found ← gets (λ w. find (is_own sid user_id) w.sessions)
  or_raise found (http 404 "Session not found")

-- `db.refresh(session)` and `_to_response`
unfoldable pub reply : ℕ → Action SessionResponse
reply sid = do s ← refresh_session sid; pure (to_response s)

abbrev virtual_phone_mic : String
virtual_phone_mic = "virtual_phone_mic"

unfoldable pub resolve_device : Option (Option ℕ) → ℕ → Action ℕ
resolve_device (some named) user_id =
    or_raise named (value_error "badly formed hexadecimal UUID string")
resolve_device none user_id = do
  found ←
      gets (λ w. find (λ d. d.user_id == user_id && d.device_type == virtual_phone_mic) w.devices)
  device ← or_raise found (http 400 "No device_id provided and no virtual_phone_mic found for user")
  pure device.id

unfoldable pub new_session : ℕ → ℕ → Option String → ℕ → ℕ → Session
new_session user_id device_id title id now = record {
  id = id;
  user_id = user_id;
  device_id = some device_id;
  title = title;
  status = SessionStatus.idle;
  consent_granted = false;
  audio_key = none;
  audio_format = none;
  audio_size_bytes = none;
  duration_seconds = none;
  metadata_json = none;
  deleted_at = none;
  retracted_by = none;
  retraction_reason = none;
  started_at = now;
  ended_at = none;
  created_at = now;
  updated_at = now;
}

-- The foreign key refuses a device that does not exist.
unfoldable pub device_exists : ℕ → Action Unit
device_exists device_id = do
  found ← gets (λ w. find (λ d. d.id == device_id) w.devices)
  or_raise found integrity_error
  pure tt

unfoldable pub create_session : SessionCreateRequest → ℕ → Action SessionResponse
create_session body user_id = do
  device_id ← resolve_device body.device_id user_id
  device_exists device_id
  s ← add_session (new_session user_id device_id body.title)
  reply s.id

abbrev pub newer : Session → Session → Bool
newer a b = ltb b.created_at a.created_at

abbrev pub own_sessions : ℕ → World → List Session
own_sessions user_id w = select (λ s. s.user_id == user_id) w.sessions

unfoldable pub list_sessions : ℕ → ℕ → ℕ → Action SessionListResponse
list_sessions user_id limit offset = do
  rows ← gets (own_sessions user_id)
  pure (record {
    sessions = map to_response (take limit (drop offset (order_by newer rows)));
    total = length rows;
  })

unfoldable pub get_session : Option ℕ → ℕ → Action SessionResponse
get_session session_id user_id = do s ← get_session_or_404 session_id user_id; pure (to_response s)

-- The states in which consent can be neither granted nor revoked.
abbrev pub consent_closed : List SessionStatus
consent_closed =
    SessionStatus.published ∷ SessionStatus.retracted ∷ SessionStatus.retracting
    ∷ SessionStatus.cancelled ∷ []

abbrev pub consent_detail : Bool → SessionStatus → String
consent_detail true current = "Cannot grant consent in status " ⊕ session_value current
consent_detail false current = "Cannot revoke consent from terminal state"

unfoldable pub update_consent : Option ℕ → Bool → ℕ → Action SessionResponse
update_consent session_id consent user_id = do
  s ← get_session_or_404 session_id user_id
  raise_if (in_set s.status consent_closed) (http 409 (consent_detail consent s.status))
  write_session s.id (λ r. record r { consent_granted = consent })
  audit_write
      (session_entry (if consent then "consent_granted" else "consent_revoked") s.id user_id)
  reply s.id

-- What entering PROCESSING adds: audio must be there, and the jobs are created.
unfoldable pub start_processing : Session → SessionStatus → Action Unit
start_processing s target =
    if target == SessionStatus.processing
    then (do
      raise_if (is_none s.audio_key) (http 400 "Audio must be uploaded before starting processing")
      create_jobs_for_session s.id
      pure tt)
    else pure tt

-- The refusal of a transition: 403 for lack of consent, 409 otherwise.
abbrev pub refusal : Session → SessionStatus → String → Error
refusal s target reason =
    if target == SessionStatus.capturing && not s.consent_granted
    then http 403 reason
    else http 409 reason

-- The body of update_session_status behind the lookup and the parse.
unfoldable pub move_session : Session → SessionStatus → Action Unit
move_session s target = do
  let check = can_transition s.status target s.consent_granted
  raise_if (not check.0) (refusal s target check.1)
  write_session s.id (λ r. record r { status = target })
  start_processing s target

unfoldable pub update_session_status : Option ℕ → String → ℕ → Action SessionResponse
update_session_status session_id status user_id = do
  s ← get_session_or_404 session_id user_id
  target ← or_raise (parse_status status) (http 400 ("Invalid status: " ⊕ status))
  move_session s target
  reply s.id

unfoldable pub cancel_session : Option ℕ → ℕ → Action SessionResponse
cancel_session session_id user_id = do
  s ← get_session_or_404 session_id user_id
  let check = can_transition s.status SessionStatus.cancelled false
  raise_if (not check.0) (http 409 check.1)
  write_session s.id (λ r. record r { status = SessionStatus.cancelled })
  reply s.id

unfoldable pub retract_session_endpoint : Option ℕ → ℕ → Action SessionResponse
retract_session_endpoint session_id user_id = do
  s ← get_session_or_404 session_id user_id
  check_retract s
  retract_session s.id user_id ""
  audit_write (session_entry "retract_initiated" s.id user_id)
  reply s.id

-- To unfold this is to unfold the handlers of this module and what they call.
unfoldable pub router : Unit {0}
unfolding get_session_or_404 reply to_response resolve_device new_session device_exists
    create_session list_sessions get_session audit_write update_consent create_jobs_for_session
    start_processing can_transition move_session update_session_status cancel_session check_retract
    retract_session retract_session_endpoint
router = tt
