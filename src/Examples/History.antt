-- ===== src/Examples/History.antt =====
-- A history: a registration, a request and two turns of the worker.
use ai_badge.Model.Ledger.{ledger, Appends-refl, Appends}
use ai_badge.System.Ledger.{run-Appends}
use ai_badge.Model.Settled.{Settled}
use ai_badge.System.Finality.{run-Settled}
use ai_badge.Prelude.{◌++◌, ◌≡◌, refl, false, some, List, [], ◌∷◌, arith}
use ai_badge.Model.{Job, JobStatus, SessionStatus, World, request, http, err, store, IsValid}
use ai_badge.Auth.Router.{get_current_user}
use ai_badge.System.{authenticated, run, empty_world, Route, Event}
use ai_badge.System.Atomicity.{call-undone}
use ai_badge.Examples.Data.{transcription, session_in, world_of, answering}
use ai_badge.Examples.Cipher.{open_crypto, parse_nonsense}

abbrev history : List Event
history =
    Event.register
      (record { email = "ada@acme"; password = "engine"; display_name = "Ada"; org_name = "acme" })
    ∷ Event.turn (record { time = 60; locks = λ id. false })
    ∷ Event.call "no token" (Route.cancel_session (some 1))
    ∷ Event.turn (record { time = 90; locks = λ id. false })
    ∷ []

refused_token :
    request
      (authenticated open_crypto
        (λ s. s)
        (λ s. s)
        answering
        "no token"
        (Route.cancel_session (some 1)))
      empty_world
    ≡ (err (http 401 "Invalid or expired token"), empty_world)
unfolding authenticated get_current_user request store
refused_token = rw (parse_nonsense 0) refl

call-undone_example : (empty_world.saved ≡ empty_world.saved) × (empty_world.db ≡ empty_world.saved)
call-undone_example =
    call-undone open_crypto (λ s. s) (λ s. s) answering "no token" (Route.cancel_session (some 1))
      (http 401 "Invalid or expired token") empty_world empty_world refused_token

run-Appends_example :
    Appends
      (ledger (run open_crypto (λ s. s) (λ s. s) answering history empty_world).saved)
      (ledger (run open_crypto (λ s. s) (λ s. s) answering (history ++ history) empty_world).saved)
run-Appends_example =
    run-Appends open_crypto (λ s. s) (λ s. s) answering history history empty_world
      (Appends-refl (ledger empty_world.saved))

-- A transcription that failed and may still be retried.
abbrev failed_job : Job
failed_job = record transcription {
  status = JobStatus.failed;
  started_at = some 500;
  error_message = some "no audio";
  next_run_at = some 900;
  retry_count = 1;
}

abbrev failed_world : World
failed_world = world_of (session_in SessionStatus.processing ∷ []) (failed_job ∷ []) []

failed_world-IsValid : IsValid failed_world
failed_world-IsValid = omega arith

run-Settled_example :
    Settled 20 failed_job (run open_crypto (λ s. s) (λ s. s) answering history failed_world)
run-Settled_example =
    run-Settled open_crypto (λ s. s) (λ s. s) answering history 20 failed_job failed_world
      failed_world-IsValid (refl, refl, refl)
