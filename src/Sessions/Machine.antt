-- ===== src/Sessions/Machine.antt =====
-- backend/app/sessions/service.py: TRANSITIONS, TERMINAL_STATES and can_transition.
use ai_badge.Prelude.{
  if◌then◌else◌, ◌⊕◌, ◌==◌, nat_eq, string_eq, Key, String, Bool, true, false, not, ◌&&◌, ◌||◌,
  List, [], ◌∷◌,
}
use ai_badge.Model.{
  session_status_eq, job_status_eq, artifact_status_eq, session_value, SessionStatus, key_eq,
  opt_eq,
}

-- `target in TRANSITIONS.get(current, set())`
abbrev pub in_set {ℓ} : {A : Type ℓ} ⦃e : Key A⦄ → A → List A → Bool
in_set a [] = false
in_set a (x ∷ xs) = a == x || in_set a xs

unfoldable pub transitions : SessionStatus → List SessionStatus
transitions SessionStatus.idle = SessionStatus.capturing ∷ SessionStatus.cancelled ∷ []
transitions SessionStatus.capturing =
    SessionStatus.paused ∷ SessionStatus.processing ∷ SessionStatus.cancelled ∷ []
transitions SessionStatus.paused = SessionStatus.capturing ∷ SessionStatus.cancelled ∷ []
transitions SessionStatus.processing =
    SessionStatus.needs_review ∷ SessionStatus.processing_failed ∷ []
transitions SessionStatus.processing_failed = SessionStatus.processing ∷ []
transitions SessionStatus.needs_review = SessionStatus.reviewing ∷ []
transitions SessionStatus.reviewing = SessionStatus.approved ∷ []
transitions SessionStatus.approved = SessionStatus.publishing ∷ []
transitions SessionStatus.publishing = SessionStatus.published ∷ SessionStatus.publish_failed ∷ []
transitions SessionStatus.publish_failed = SessionStatus.publishing ∷ []
transitions SessionStatus.published = SessionStatus.retracting ∷ []
transitions SessionStatus.retracting = SessionStatus.retracted ∷ []
transitions SessionStatus.retracted = []
transitions SessionStatus.cancelled = []

abbrev pub terminal_states : List SessionStatus
terminal_states = SessionStatus.cancelled ∷ SessionStatus.retracted ∷ []

unfoldable pub can_transition : SessionStatus → SessionStatus → Bool → Bool × String
unfolding transitions
can_transition current target consent_granted =
    if current == target
    then if in_set current terminal_states
      then (false, "Session already in terminal state " ⊕ session_value current)
      else (true, "")
    else if target == SessionStatus.capturing && not consent_granted
    then (false, "Consent not granted")
    else if not (in_set target (transitions current))
    then (false, "Cannot transition from " ⊕ session_value current ⊕ " to " ⊕ session_value target)
    else (true, "")
