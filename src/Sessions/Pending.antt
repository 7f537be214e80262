-- ===== src/Sessions/Pending.antt =====
-- The committed state during the requests on sessions, backend/app/sessions.
use ai_badge.Prelude.{ℕ, String, refl, Bool, Option, none, some, List}
use ai_badge.Model.{SessionStatus, Session}
use ai_badge.Model.Pending.{Pending, pending_rules}
use ai_badge.Audit.{audit_write, AuditEntry}
use ai_badge.Orchestrator.Pending.{Pending-create_jobs_for_session}
use ai_badge.Trust.Policy.{check_retract}
use ai_badge.Sessions.Service.{retract_found, retract_session}
use ai_badge.Sessions.Schemas.{SessionCreateRequest}
use ai_badge.Storage.{save}
use ai_badge.Sessions.Upload.{attach_audio, upload_audio}
use ai_badge.Sessions.Router.{
  get_session_or_404, reply, create_session, update_consent, start_processing, move_session,
  update_session_status, cancel_session, retract_session_endpoint, resolve_device, device_exists,
  list_sessions, get_session,
}

pub Pending-audit_write : (e : AuditEntry) → Pending (audit_write e)
unfolding audit_write
Pending-audit_write e = search pending_rules

Pending-get_session_or_404 : (sid : Option ℕ) (uid : ℕ) → Pending (get_session_or_404 sid uid)
unfolding get_session_or_404
Pending-get_session_or_404 none uid = search pending_rules
Pending-get_session_or_404 (some sid) uid = search pending_rules

Pending-reply : (sid : ℕ) → Pending (reply sid)
unfolding reply
Pending-reply sid = search (pending_rules)

ruleset router_rules =
    (pending_rules, Pending-get_session_or_404, Pending-reply, Pending-audit_write)

Pending-resolve_device : (d : Option (Option ℕ)) (uid : ℕ) → Pending (resolve_device d uid)
unfolding resolve_device
Pending-resolve_device none uid = search pending_rules
Pending-resolve_device (some d) uid = search pending_rules

Pending-device_exists : (d : ℕ) → Pending (device_exists d)
unfolding device_exists
Pending-device_exists d = search pending_rules

pub Pending-create_session :
    (body : SessionCreateRequest) (uid : ℕ) → Pending (create_session body uid)
unfolding create_session
Pending-create_session body uid =
    search (pending_rules, Pending-resolve_device, Pending-device_exists, Pending-reply)

pub Pending-update_consent :
    (sid : Option ℕ) (consent : Bool) (uid : ℕ) → Pending (update_consent sid consent uid)
unfolding update_consent
Pending-update_consent sid consent uid = search router_rules depth 8

Pending-start_processing : (s : Session) (t : SessionStatus) → Pending (start_processing s t)
unfolding start_processing
Pending-start_processing s t = search (pending_rules, Pending-create_jobs_for_session) depth 8

Pending-move_session : (s : Session) (t : SessionStatus) → Pending (move_session s t)
unfolding move_session
Pending-move_session s t = search (pending_rules, Pending-start_processing) depth 8

pub Pending-update_session_status :
    (sid : Option ℕ) (status : String) (uid : ℕ) → Pending (update_session_status sid status uid)
unfolding update_session_status
Pending-update_session_status sid status uid = search (router_rules, Pending-move_session) depth 8

pub Pending-cancel_session : (sid : Option ℕ) (uid : ℕ) → Pending (cancel_session sid uid)
unfolding cancel_session
Pending-cancel_session sid uid = search router_rules depth 8

Pending-retract_found :
    (uid : ℕ) (reason : String) (s : Session) → Pending (retract_found uid reason s)
unfolding retract_found
Pending-retract_found uid reason s = search (pending_rules) depth 9

Pending-check_retract : (s : Session) → Pending (check_retract s)
unfolding check_retract
Pending-check_retract s = search pending_rules

Pending-retract_session : (sid uid : ℕ) (reason : String) → Pending (retract_session sid uid reason)
unfolding retract_session
Pending-retract_session sid uid reason = search (pending_rules, Pending-retract_found) depth 8

pub Pending-retract_session_endpoint :
    (sid : Option ℕ) (uid : ℕ) → Pending (retract_session_endpoint sid uid)
unfolding retract_session_endpoint
Pending-retract_session_endpoint sid uid =
    search (router_rules, Pending-check_retract, Pending-retract_session) depth 8

pub Pending-list_sessions : (uid limit offset : ℕ) → Pending (list_sessions uid limit offset)
unfolding list_sessions
Pending-list_sessions uid limit offset = search pending_rules

pub Pending-get_session : (sid : Option ℕ) (uid : ℕ) → Pending (get_session sid uid)
unfolding get_session
Pending-get_session sid uid = search (pending_rules, Pending-get_session_or_404)

Pending-save : (base key : String) (content : List ℕ) → Pending (save base key content)
unfolding save
Pending-save base key content = record { saved = λ w. refl }

Pending-attach_audio :
    (lower : String → String) (base : String) (filename content_type : Option String)
    (content : List ℕ) (s : Session)
    → Pending (attach_audio lower base filename content_type content s)
unfolding attach_audio
Pending-attach_audio lower base filename content_type content s =
    search (pending_rules, Pending-save) depth 8

pub Pending-upload_audio :
    (lower : String → String) (base : String) (sid : Option ℕ)
    (filename content_type : Option String) (content : List ℕ) (uid : ℕ)
    → Pending (upload_audio lower base sid filename content_type content uid)
unfolding upload_audio
Pending-upload_audio lower base sid filename content_type content uid =
    search (router_rules, Pending-attach_audio) depth 8
