-- ===== src/Sessions/Consent.antt =====
-- POST /sessions/{id}/consent and /cancel of backend/app/sessions/router.py.
use ai_badge.Prelude.{
  if◌then◌else◌, nat_eq, string_eq, ℕ, suc, ◌≡◌, refl, Bool, true, false, none, some, [], ◌∷◌, ◌++◌,
  arith, List,
}
use ai_badge.Model.{
  session_status_eq, job_status_eq, artifact_status_eq, SessionStatus, opt_eq, key_eq, Session,
  AuditLog, request, status_code, Refused, World, set_session, store, http,
}
use ai_badge.Sessions.Machine.{in_set, can_transition}
use ai_badge.Sessions.Router.{
  get_session_or_404, consent_closed, update_consent, consent_detail, cancel_session,
}
use ai_badge.Sessions.Requests.{own_session}

abbrev pub with_consent : Bool → Session → Session
with_consent b s = record s { consent_granted = b }

-- The entry that a change of consent leaves.
abbrev pub consent_log : Bool → Session → ℕ → ℕ → ℕ → AuditLog
consent_log b s uid id now = record {
  id = id;
  user_id = some uid;
  action = if b then "consent_granted" else "consent_revoked";
  resource_type = "session";
  resource_id = some s.id;
  session_id = some s.id;
  artifact_id = none;
  details = none;
  ip_address = none;
  created_at = now;
}

abbrev consent_world : Bool → Session → ℕ → World → World
consent_world b s uid w =
    let d = set_session s.id (with_consent b) w.db in
    record w {
      db = record d { audit_logs = w.audit_logs ++ consent_log b s uid w.fresh w.now ∷ [] };
      fresh = suc w.fresh;
    }

-- Consent of a user's session that is published, retracting, retracted or cancelled can be neither
-- granted nor revoked: the request is refused with 409, and nothing changes.
pub update_consent-Refused :
    (sid uid : ℕ) (b : Bool) (s : Session) (w : World)
    → own_session sid uid w ≡ some s
    → in_set s.status consent_closed ≡ true
    → Refused (update_consent (some sid) b uid) w 409
unfolding update_consent get_session_or_404 request store status_code
update_consent-Refused sid uid b s w own shut =
    (http 409 (consent_detail b s.status), ground (arith, own, shut), refl)

-- The statuses that allow a cancellation.
abbrev pub cancellable : List SessionStatus
cancellable = SessionStatus.idle ∷ SessionStatus.capturing ∷ SessionStatus.paused ∷ []

-- A user's session that is not idle, capturing or paused, a cancelled one too, is not cancelled:
-- the request is refused with 409, and nothing changes.
pub cancel_session-Refused :
    (sid uid : ℕ) (s : Session) (w : World)
    → own_session sid uid w ≡ some s
    → in_set s.status cancellable ≡ false
    → Refused (cancel_session (some sid) uid) w 409
unfolding cancel_session get_session_or_404 request store status_code
cancel_session-Refused sid uid s w own not_now =
    let shut : (can_transition s.status SessionStatus.cancelled false).0 ≡ false =
      unfold can_transition in ground arith in
    (
      http 409 (can_transition s.status SessionStatus.cancelled false).1,
      ground (arith, own, shut),
      refl,
    )
