-- ===== src/System/Validity.antt =====
-- The invariant of the database through histories of requests and turns of the worker.
use ai_badge.Prelude.{ℕ, String, arith, Option}
use ai_badge.Audit.Listing.{list_audit_logs}
use ai_badge.Model.{Action, World, IsValid}
use ai_badge.Model.Keeps.{Keeps-pure, Keeps-request, Keeps-bind, Keeps, keeps_rules}
use ai_badge.Auth.Crypto.{Crypto}
use ai_badge.Auth.Keeps.{Keeps-register, Keeps-login, Keeps-get_current_user}
use ai_badge.Sessions.Keeps.{
  Keeps-create_session, Keeps-update_consent, Keeps-update_session_status, Keeps-cancel_session,
  Keeps-retract_session_endpoint, Keeps-list_sessions, Keeps-get_session, Keeps-upload_audio,
}
use ai_badge.Artifacts.Keeps.{
  Keeps-update_artifact, Keeps-review_artifact, Keeps-publish_artifact, Keeps-list_artifacts,
  Keeps-get_artifact,
}
use ai_badge.Agents.Providers.{Providers}
use ai_badge.Agents.Keeps.{handlers-HandlersKeep}
use ai_badge.Agents.Registry.{handlers}
use ai_badge.Orchestrator.Worker.Steps.{send_heartbeat-IsValid}
use ai_badge.Orchestrator.Worker.Keeps.{poll_cycle-IsValid}
use ai_badge.System.{ignore, dispatch, authenticated, step, empty_world, Route, Event}
use ai_badge.Model.Settled.{Scope, nothing}

pub Keeps-ignore : {own : Scope} {A : Type 0} (m : Action A) → Keeps own m → Keeps own (ignore m)
Keeps-ignore m k = Keeps-bind m _ k (λ _. Keeps-pure tt)

Keeps-list_audit_logs :
    {own : Scope} (filter : Option ℕ) (limit offset : ℕ)
    → Keeps own (list_audit_logs filter limit offset)
unfolding list_audit_logs
Keeps-list_audit_logs filter limit offset = search keeps_rules

Keeps-dispatch :
    {own : Scope} (p : Providers) (lower : String → String) (r : Route) (uid : ℕ)
    → Keeps own (dispatch p lower r uid)
unfolding dispatch
Keeps-dispatch p lower (Route.create_session body) uid =
    Keeps-ignore _ (Keeps-create_session body uid)
Keeps-dispatch p lower (Route.list_sessions limit offset) uid =
    Keeps-ignore _ (Keeps-list_sessions uid limit offset)
Keeps-dispatch p lower (Route.get_session sid) uid = Keeps-ignore _ (Keeps-get_session sid uid)
Keeps-dispatch p lower (Route.update_consent sid consent) uid =
    Keeps-ignore _ (Keeps-update_consent sid consent uid)
Keeps-dispatch p lower (Route.update_session_status sid status) uid =
    Keeps-ignore _ (Keeps-update_session_status sid status uid)
Keeps-dispatch p lower (Route.cancel_session sid) uid =
    Keeps-ignore _ (Keeps-cancel_session sid uid)
Keeps-dispatch p lower (Route.retract_session sid) uid =
    Keeps-ignore _ (Keeps-retract_session_endpoint sid uid)
Keeps-dispatch p lower (Route.list_artifacts limit offset) uid =
    Keeps-ignore _ (Keeps-list_artifacts limit offset)
Keeps-dispatch p lower (Route.get_artifact aid) uid = Keeps-ignore _ (Keeps-get_artifact aid)
Keeps-dispatch p lower (Route.update_artifact aid body) uid =
    Keeps-ignore _ (Keeps-update_artifact aid body)
Keeps-dispatch p lower (Route.review_artifact aid body) uid =
    Keeps-ignore _ (Keeps-review_artifact aid body uid)
Keeps-dispatch p lower (Route.publish_artifact aid) uid =
    Keeps-ignore _ (Keeps-publish_artifact aid)
Keeps-dispatch p lower (Route.upload_audio sid filename content_type content) uid =
    Keeps-ignore _
      (Keeps-upload_audio lower p.audio_storage_path sid filename content_type content uid)
Keeps-dispatch p lower (Route.list_audit_logs filter limit offset) uid =
    Keeps-ignore _ (Keeps-list_audit_logs filter limit offset)

module _ (c : Crypto) (lower lower_strip : String → String) (p : Providers) where
  pub Keeps-authenticated :
      {own : Scope} (token : String) (r : Route)
      → Keeps own (authenticated c lower lower_strip p token r)
  unfolding authenticated
  Keeps-authenticated token r =
      Keeps-bind _ _ (Keeps-get_current_user c lower_strip token) λ u. Keeps-dispatch p lower r u.id

  pub step-IsValid : (e : Event) (w : World) → IsValid w → IsValid (step c lower lower_strip p e w)
  unfolding step
  step-IsValid (Event.register body) w h =
      (Keeps-request {own = nothing} _ (Keeps-ignore _ (Keeps-register c lower_strip body))).at w h
  step-IsValid (Event.login body) w h =
      (Keeps-request {own = nothing} _ (Keeps-ignore _ (Keeps-login c lower_strip body))).at w h
  step-IsValid (Event.call token r) w h =
      (Keeps-request {own = nothing} _ (Keeps-authenticated token r)).at w h
  step-IsValid (Event.turn t) w h =
      poll_cycle-IsValid (handlers p) (handlers-HandlersKeep p) t.locks _
        (record { open_db = h.open_db; saved_db = h.saved_db })
  step-IsValid (Event.heartbeat jid) w h = send_heartbeat-IsValid jid w h
  step-IsValid (Event.wait seconds) w h = record { open_db = h.open_db; saved_db = h.saved_db }

pub empty_world-IsValid : IsValid empty_world
empty_world-IsValid = omega arith
