-- ===== src/Sessions/StatusChange.antt =====
-- PATCH /sessions/{id}/status of backend/app/sessions/router.py: what it takes to succeed, and each
-- refusal with its HTTP status.
use ai_badge.Prelude.{
  ◌==◌, nat_eq, string_eq, ℕ, String, ◌≡◌, refl, inl, inr, none, some, arith, if◌then◌else◌, ◌⊕◌,
  not, ◌&&◌, Bool-cases, Bool, false,
}
use ai_badge.Model.{
  session_status_eq, job_status_eq, artifact_status_eq, parse_status, SessionStatus, opt_eq, key_eq,
  Session, ◌>>=◌, request, World, status_code, http, Refused, write_session,
}
use ai_badge.Sessions.Machine.{can_transition}
use ai_badge.Sessions.Lifecycle.{Move, can_transition-Move}
use ai_badge.Sessions.Router.{
  move_session, update_session_status, get_session_or_404, start_processing, refusal,
}
use ai_badge.Sessions.Requests.{own_session}

can_transition-not_Move :
    (c t : SessionStatus) (g : Bool) → ¬ Move g c t → (can_transition c t g).0 ≡ false
can_transition-not_Move c t g shut = elim (Bool-cases (can_transition c t g).0) [
  | inl e ↦ absurd (shut ((can_transition-Move c t g).0 e))
  | inr e ↦ e
]

-- Why a change of status to `text` is refused, and with which HTTP status.
pub data Refusal (sid uid : ℕ) (text : String) (w : World) : ℕ → Type 0 where
  no_session : own_session sid uid w ≡ none → Refusal sid uid text w 404
  no_status :
      {s : Session}
      → own_session sid uid w ≡ some s
      → parse_status text ≡ none
      → Refusal sid uid text w 400
  no_move :
      {s : Session} {t : SessionStatus}
      → own_session sid uid w ≡ some s
      → parse_status text ≡ some t
      → ¬ Move s.consent_granted s.status t
      → Refusal sid uid text w
          (if t == SessionStatus.capturing && not s.consent_granted then 403 else 409)
  no_audio :
      {s : Session}
      → own_session sid uid w ≡ some s
      → parse_status text ≡ some SessionStatus.processing
      → Move s.consent_granted s.status SessionStatus.processing
      → s.audio_key ≡ none
      → Refusal sid uid text w 400

-- A change of status is refused with 404 where the user has no such session, and with 400 where the
-- text is no status; where the move is not one of the diagram, with 403 if it would start capturing
-- without consent and with 409 otherwise; and with 400 where processing may start and there is no
-- audio. In each case the open transaction is back at what was committed.
pub update_session_status-Refused :
    (sid uid : ℕ) (text : String) (w : World) (code : ℕ)
    → Refusal sid uid text w code
    → Refused (update_session_status (some sid) text uid) w code
unfolding update_session_status get_session_or_404 status_code request ◌>>=◌
update_session_status-Refused sid uid text w code (no_session h) =
    (http 404 "Session not found", ground arith, refl)
update_session_status-Refused sid uid text w code (no_status h p) =
    (http 400 ("Invalid status: " ⊕ text), ground arith, refl)
update_session_status-Refused sid uid text w code (no_move {s} {t} h p bad) =
    let shut = can_transition-not_Move s.status t s.consent_granted bad in
    (
      refusal s t (can_transition s.status t s.consent_granted).1,
      unfold move_session in ground arith,
      ground arith,
    )
update_session_status-Refused sid uid text w code (no_audio {s} h p m a) =
    let open' = (can_transition-Move s.status SessionStatus.processing s.consent_granted).1 m in
    (
      http 400 "Audio must be uploaded before starting processing",
      unfold move_session start_processing write_session in ground arith,
      refl,
    )
