-- ===== src/System/Atomicity.antt =====
-- The committed state through the requests that main.py mounts and get_db of
-- backend/app/db/session.py ends.
use ai_badge.Prelude.{ℕ, String, ◌≡◌, Option}
use ai_badge.Audit.Listing.{list_audit_logs}
use ai_badge.Model.{Action, request, World, Error, err}
use ai_badge.Model.Pending.{Pending-pure, request-undone, Pending-bind, Pending, pending_rules}
use ai_badge.Auth.Crypto.{Crypto}
use ai_badge.Auth.Router.{get_current_user}
use ai_badge.Sessions.Pending.{
  Pending-create_session, Pending-update_consent, Pending-update_session_status,
  Pending-cancel_session, Pending-retract_session_endpoint, Pending-list_sessions,
  Pending-get_session, Pending-upload_audio,
}
use ai_badge.Artifacts.Pending.{
  Pending-update_artifact, Pending-review_artifact, Pending-publish_artifact,
  Pending-list_artifacts, Pending-get_artifact,
}
use ai_badge.Agents.Providers.{Providers}
use ai_badge.System.{ignore, dispatch, authenticated, Route}

Pending-ignore : {A : Type 0} (m : Action A) → Pending m → Pending (ignore m)
Pending-ignore m k = Pending-bind m _ k (λ _. Pending-pure tt)

Pending-list_audit_logs :
    (filter : Option ℕ) (limit offset : ℕ) → Pending (list_audit_logs filter limit offset)
unfolding list_audit_logs
Pending-list_audit_logs filter limit offset = search pending_rules

Pending-dispatch :
    (p : Providers) (lower : String → String) (r : Route) (uid : ℕ)
    → Pending (dispatch p lower r uid)
unfolding dispatch
Pending-dispatch p lower (Route.create_session body) uid =
    Pending-ignore _ (Pending-create_session body uid)
Pending-dispatch p lower (Route.list_sessions limit offset) uid =
    Pending-ignore _ (Pending-list_sessions uid limit offset)
Pending-dispatch p lower (Route.get_session sid) uid =
    Pending-ignore _ (Pending-get_session sid uid)
Pending-dispatch p lower (Route.update_consent sid consent) uid =
    Pending-ignore _ (Pending-update_consent sid consent uid)
Pending-dispatch p lower (Route.update_session_status sid status) uid =
    Pending-ignore _ (Pending-update_session_status sid status uid)
Pending-dispatch p lower (Route.cancel_session sid) uid =
    Pending-ignore _ (Pending-cancel_session sid uid)
Pending-dispatch p lower (Route.retract_session sid) uid =
    Pending-ignore _ (Pending-retract_session_endpoint sid uid)
Pending-dispatch p lower (Route.list_artifacts limit offset) uid =
    Pending-ignore _ (Pending-list_artifacts limit offset)
Pending-dispatch p lower (Route.get_artifact aid) uid = Pending-ignore _ (Pending-get_artifact aid)
Pending-dispatch p lower (Route.update_artifact aid body) uid =
    Pending-ignore _ (Pending-update_artifact aid body)
Pending-dispatch p lower (Route.review_artifact aid body) uid =
    Pending-ignore _ (Pending-review_artifact aid body uid)
Pending-dispatch p lower (Route.publish_artifact aid) uid =
    Pending-ignore _ (Pending-publish_artifact aid)
Pending-dispatch p lower (Route.upload_audio sid filename content_type content) uid =
    Pending-ignore _
      (Pending-upload_audio lower p.audio_storage_path sid filename content_type content uid)
Pending-dispatch p lower (Route.list_audit_logs filter limit offset) uid =
    Pending-ignore _ (Pending-list_audit_logs filter limit offset)

module _ (c : Crypto) (lower lower_strip : String → String) (p : Providers) where
  Pending-authenticated :
      (token : String) (r : Route) → Pending (authenticated c lower lower_strip p token r)
  unfolding authenticated get_current_user
  Pending-authenticated token r = search (pending_rules, Pending-dispatch p lower) depth 9

  -- A request with any token to any route that is answered with an error, its own or of a check,
  -- leaves the committed database exactly as it was before, whatever it had written until then, and
  -- the open transaction is back at it.
  pub call-undone :
      (token : String) (r : Route) (e : Error) (w v : World)
      → request (authenticated c lower lower_strip p token r) w ≡ (err e, v)
      → (v.saved ≡ w.saved) × (v.db ≡ w.saved)
  call-undone token r e w v h = request-undone _ w v e (Pending-authenticated token r) h
