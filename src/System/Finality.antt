-- ===== src/System/Finality.antt =====
-- Jobs that are completed or failed, through everything that the system does: requests, and turns
-- and heartbeats of the worker (backend/app/orchestrator).
use ai_badge.Prelude.{ℕ, String, refl, List, [], ◌∷◌}
use ai_badge.Model.{Job, Action, request, World, IsValid}
use ai_badge.Model.Settled.{Settled, nothing}
use ai_badge.Model.Keeps.{Keeps, Keeps-request}
use ai_badge.Auth.Crypto.{Crypto}
use ai_badge.Auth.Keeps.{Keeps-register, Keeps-login}
use ai_badge.Agents.Providers.{Providers}
use ai_badge.Agents.Keeps.{handlers-HandlersKeep}
use ai_badge.Agents.Registry.{handlers}
use ai_badge.Orchestrator.Worker.Finality.{send_heartbeat-Settled, poll_cycle-Settled}
use ai_badge.System.{step, run, Event}
use ai_badge.System.Validity.{Keeps-ignore, Keeps-authenticated, step-IsValid}

module _ (c : Crypto) (lower lower_strip : String → String) (p : Providers) where
  -- No request may write to a job.
  request-Settled :
      {A : Type 0} (m : Action A) (k : ℕ) (row : Job) (w : World)
      → Keeps nothing m
      → Settled k row w
      → Settled k row (request m w).1
  request-Settled m k row w keep h = (Keeps-request m keep).spares k row w refl h

  step-Settled :
      (e : Event) (k : ℕ) (row : Job) (w : World)
      → IsValid w
      → Settled k row w
      → Settled k row (step c lower lower_strip p e w)
  unfolding step
  step-Settled (Event.register body) k row w v h =
      request-Settled _ k row w (Keeps-ignore _ (Keeps-register c lower_strip body)) h
  step-Settled (Event.login body) k row w v h =
      request-Settled _ k row w (Keeps-ignore _ (Keeps-login c lower_strip body)) h
  step-Settled (Event.call token r) k row w v h =
      request-Settled _ k row w (Keeps-authenticated c lower lower_strip p token r) h
  step-Settled (Event.turn t) k row w v h =
      poll_cycle-Settled k row (handlers p) (handlers-HandlersKeep p) t.locks
        (record w { now = t.time }) (record { open_db = v.open_db; saved_db = v.saved_db }) h
  step-Settled (Event.heartbeat jid) k row w v h = send_heartbeat-Settled k row jid w h
  step-Settled (Event.wait seconds) k row w v h = h

  -- In a valid database, a job that is completed or failed, in the open transaction and as
  -- committed, keeps exactly its row through any history of requests (of any user), turns of the
  -- worker with any locks, heartbeats and waits, over any providers: it is never released, claimed
  -- or run again, and neither its output, its error nor its retries change.
  pub run-Settled :
      (es : List Event) (k : ℕ) (row : Job) (w : World)
      → IsValid w
      → Settled k row w
      → Settled k row (run c lower lower_strip p es w)
  unfolding run
  run-Settled [] k row w v h = h
  run-Settled (e ∷ es) k row w v h =
      run-Settled es k row (step c lower lower_strip p e w)
        (step-IsValid c lower lower_strip p e w v) (step-Settled e k row w v h)
