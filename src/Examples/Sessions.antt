-- ===== src/Examples/Sessions.antt =====
-- The requests on sessions, on the two sessions of the example data.
use ai_badge.Prelude.{nat_eq, string_eq, ◌≡◌, refl, ◌↔◌, true, some, [], ◌∷◌}
use ai_badge.Model.{
  session_status_eq, job_status_eq, artifact_status_eq, SessionStatus, opt_eq, key_eq, Refused,
  World,
}
use ai_badge.Sessions.Machine.{can_transition}
use ai_badge.Sessions.Lifecycle.{can_transition-Move, Move, reprocess, along}
use ai_badge.Sessions.Router.{update_session_status, retract_session_endpoint}
use ai_badge.Sessions.StatusChange.{update_session_status-Refused, no_session}
use ai_badge.Sessions.Retraction.{retract_session_endpoint-Refused}
use ai_badge.Sessions.Processing.{update_session_status-again}
use ai_badge.Examples.Data.{session_in, another_session, transcription, world_of, two_sessions}

can_transition-Move_example :
    ((can_transition SessionStatus.idle SessionStatus.capturing true).0 ≡ true)
    ↔ Move true SessionStatus.idle SessionStatus.capturing
can_transition-Move_example = can_transition-Move SessionStatus.idle SessionStatus.capturing true

-- User 8 has no session 1.
update_session_status-Refused_example :
    Refused (update_session_status (some 1) "approved" 8) (two_sessions SessionStatus.reviewing) 404
update_session_status-Refused_example =
    update_session_status-Refused 1 8 "approved" (two_sessions SessionStatus.reviewing) 404
      (no_session refl)

retract_session_endpoint-Refused_example :
    Refused (retract_session_endpoint (some 1) 7) (two_sessions SessionStatus.retracting) 403
retract_session_endpoint-Refused_example =
    retract_session_endpoint-Refused 1 7 (session_in SessionStatus.retracting)
      (two_sessions SessionStatus.retracting) refl refl

-- Processing has failed once, and the transcription job is still in the table.
abbrev failed_world : World
failed_world =
    world_of (session_in SessionStatus.processing_failed ∷ another_session ∷ [])
      (transcription ∷ []) []

update_session_status-again_example :
    Refused (update_session_status (some 1) "processing" 7) failed_world 500
update_session_status-again_example =
    update_session_status-again 1 7 (session_in SessionStatus.processing_failed) "rec.wav"
      transcription failed_world refl (along reprocess) refl refl
