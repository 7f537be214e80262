-- ===== src/Sessions/Keeps.antt =====
-- The invariant of the database through the requests on sessions, backend/app/sessions.
use ai_badge.Prelude.{ℕ, String, refl, Bool, Option, none, some, List}
use ai_badge.Model.{SessionStatus, Session, add_session}
use ai_badge.Model.Keeps.{Keeps, keeps_rules}
use ai_badge.Model.Insert.{Keeps-add_session, insert_rules}
use ai_badge.Audit.{audit_write, AuditEntry}
use ai_badge.Orchestrator.Keeps.{Keeps-create_jobs_for_session}
use ai_badge.Trust.Policy.{check_retract}
use ai_badge.Sessions.Service.{retract_found, retract_session}
use ai_badge.Sessions.Schemas.{SessionCreateRequest}
use ai_badge.Storage.{save}
use ai_badge.Sessions.Upload.{attach_audio, upload_audio}
use ai_badge.Sessions.Router.{
  get_session_or_404, reply, create_session, update_consent, start_processing, move_session,
  update_session_status, cancel_session, retract_session_endpoint, resolve_device, new_session,
  device_exists, list_sessions, get_session,
}
use ai_badge.Model.Settled.{Scope}

pub Keeps-audit_write : {own : Scope} (e : AuditEntry) → Keeps own (audit_write e)
unfolding audit_write
Keeps-audit_write e = search insert_rules

Keeps-get_session_or_404 :
    {own : Scope} (sid : Option ℕ) (uid : ℕ) → Keeps own (get_session_or_404 sid uid)
unfolding get_session_or_404
Keeps-get_session_or_404 none uid = search keeps_rules
Keeps-get_session_or_404 (some sid) uid = search keeps_rules

Keeps-reply : {own : Scope} (sid : ℕ) → Keeps own (reply sid)
unfolding reply
Keeps-reply sid = search (keeps_rules, insert_rules)

ruleset router_rules =
    (keeps_rules, insert_rules, Keeps-get_session_or_404, Keeps-reply, Keeps-audit_write)

Keeps-resolve_device :
    {own : Scope} (d : Option (Option ℕ)) (uid : ℕ) → Keeps own (resolve_device d uid)
unfolding resolve_device
Keeps-resolve_device none uid = search keeps_rules
Keeps-resolve_device (some d) uid = search keeps_rules

Keeps-device_exists : {own : Scope} (d : ℕ) → Keeps own (device_exists d)
unfolding device_exists
Keeps-device_exists d = search keeps_rules

Keeps-new_session :
    {own : Scope} (uid did : ℕ) (title : Option String)
    → Keeps own (add_session (new_session uid did title))
unfolding new_session
Keeps-new_session uid did title = Keeps-add_session _ (λ id now. refl)

pub Keeps-create_session :
    {own : Scope} (body : SessionCreateRequest) (uid : ℕ) → Keeps own (create_session body uid)
unfolding create_session
Keeps-create_session body uid =
    search (keeps_rules, Keeps-resolve_device, Keeps-device_exists, Keeps-new_session, Keeps-reply)

pub Keeps-update_consent :
    {own : Scope} (sid : Option ℕ) (consent : Bool) (uid : ℕ)
    → Keeps own (update_consent sid consent uid)
unfolding update_consent
Keeps-update_consent sid consent uid = search router_rules depth 8

Keeps-start_processing :
    {own : Scope} (s : Session) (t : SessionStatus) → Keeps own (start_processing s t)
unfolding start_processing
Keeps-start_processing s t = search (keeps_rules, Keeps-create_jobs_for_session) depth 8

Keeps-move_session : {own : Scope} (s : Session) (t : SessionStatus) → Keeps own (move_session s t)
unfolding move_session
Keeps-move_session s t = search (keeps_rules, Keeps-start_processing) depth 8

pub Keeps-update_session_status :
    {own : Scope} (sid : Option ℕ) (status : String) (uid : ℕ)
    → Keeps own (update_session_status sid status uid)
unfolding update_session_status
Keeps-update_session_status sid status uid = search (router_rules, Keeps-move_session) depth 8

pub Keeps-cancel_session :
    {own : Scope} (sid : Option ℕ) (uid : ℕ) → Keeps own (cancel_session sid uid)
unfolding cancel_session
Keeps-cancel_session sid uid = search router_rules depth 8

Keeps-retract_found :
    {own : Scope} (uid : ℕ) (reason : String) (s : Session) → Keeps own (retract_found uid reason s)
unfolding retract_found
Keeps-retract_found uid reason s = search (keeps_rules, insert_rules) depth 9

Keeps-check_retract : {own : Scope} (s : Session) → Keeps own (check_retract s)
unfolding check_retract
Keeps-check_retract s = search keeps_rules

Keeps-retract_session :
    {own : Scope} (sid uid : ℕ) (reason : String) → Keeps own (retract_session sid uid reason)
unfolding retract_session
Keeps-retract_session sid uid reason = search (keeps_rules, Keeps-retract_found) depth 8

pub Keeps-retract_session_endpoint :
    {own : Scope} (sid : Option ℕ) (uid : ℕ) → Keeps own (retract_session_endpoint sid uid)
unfolding retract_session_endpoint
Keeps-retract_session_endpoint sid uid =
    search (router_rules, Keeps-check_retract, Keeps-retract_session) depth 8

pub Keeps-list_sessions :
    {own : Scope} (uid limit offset : ℕ) → Keeps own (list_sessions uid limit offset)
unfolding list_sessions
Keeps-list_sessions uid limit offset = search keeps_rules

pub Keeps-get_session : {own : Scope} (sid : Option ℕ) (uid : ℕ) → Keeps own (get_session sid uid)
unfolding get_session
Keeps-get_session sid uid = search (keeps_rules, Keeps-get_session_or_404)

Keeps-save :
    {own : Scope} (base key : String) (content : List ℕ) → Keeps own (save base key content)
unfolding save
Keeps-save base key content = record {
  at = λ w h. record { open_db = h.open_db; saved_db = h.saved_db };
  records = λ l w h. h;
  spares = λ k row w out h. h;
}

Keeps-attach_audio :
    {own : Scope} (lower : String → String) (base : String) (filename content_type : Option String)
    (content : List ℕ) (s : Session)
    → Keeps own (attach_audio lower base filename content_type content s)
unfolding attach_audio
Keeps-attach_audio lower base filename content_type content s =
    search (keeps_rules, Keeps-save) depth 8

pub Keeps-upload_audio :
    {own : Scope} (lower : String → String) (base : String) (sid : Option ℕ)
    (filename content_type : Option String) (content : List ℕ) (uid : ℕ)
    → Keeps own (upload_audio lower base sid filename content_type content uid)
unfolding upload_audio
Keeps-upload_audio lower base sid filename content_type content uid =
    search (router_rules, Keeps-attach_audio) depth 8
