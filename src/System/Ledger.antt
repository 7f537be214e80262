-- ===== src/System/Ledger.antt =====
-- What the running system records for good: the committed tables seen as ledgers that only grow,
-- through requests (backend/app/main.py, database.py) and turns of the worker.
use ai_badge.Prelude.{String, ◌≡◌, refl, List, [], ◌∷◌, ◌++◌}
use ai_badge.Model.{World}
use ai_badge.Model.Ledger.{ledger, Appends-refl, Recorded, Ledger, Appends}
use ai_badge.Model.Settled.{nothing}
use ai_badge.Model.Keeps.{Keeps-request}
use ai_badge.Auth.Crypto.{Crypto}
use ai_badge.Auth.Keeps.{Keeps-register, Keeps-login}
use ai_badge.Agents.Providers.{Providers}
use ai_badge.Agents.Keeps.{handlers-HandlersKeep}
use ai_badge.Agents.Registry.{handlers}
use ai_badge.Orchestrator.Worker.Steps.{send_heartbeat-Recorded}
use ai_badge.Orchestrator.Worker.Keeps.{poll_cycle-Recorded}
use ai_badge.System.{step, run, Event}
use ai_badge.System.Validity.{Keeps-ignore, Keeps-authenticated}

module _ (c : Crypto) (lower lower_strip : String → String) (p : Providers) where
  step-Recorded :
      (e : Event) (l : Ledger) (w : World)
      → Recorded l w
      → Recorded l (step c lower lower_strip p e w)
  unfolding step
  step-Recorded (Event.register body) l w h =
      (Keeps-request {own = nothing} _ (Keeps-ignore _ (Keeps-register c lower_strip body))).records
        l w h
  step-Recorded (Event.login body) l w h =
      (Keeps-request {own = nothing} _ (Keeps-ignore _ (Keeps-login c lower_strip body))).records l
        w h
  step-Recorded (Event.call token r) l w h =
      (Keeps-request {own = nothing} _ (Keeps-authenticated c lower lower_strip p token r)).records
        l w h
  step-Recorded (Event.turn t) l w h =
      poll_cycle-Recorded (handlers p) (handlers-HandlersKeep p) t.locks l
        (record w { now = t.time }) h
  step-Recorded (Event.heartbeat jid) l w h = send_heartbeat-Recorded jid l w h
  step-Recorded (Event.wait seconds) l w h = h

  run-Recorded :
      (es : List Event) (l : Ledger) (w : World)
      → Recorded l w
      → Recorded l (run c lower lower_strip p es w)
  unfolding run
  run-Recorded [] l w h = h
  run-Recorded (e ∷ es) l w h =
      run-Recorded es l (step c lower lower_strip p e w) (step-Recorded e l w h)

  run-append :
      (es fs : List Event) (w : World)
      → run c lower lower_strip p (es ++ fs) w
        ≡ run c lower lower_strip p fs (run c lower lower_strip p es w)
  unfolding run
  run-append [] fs w = refl
  run-append (e ∷ es) fs w = run-append es fs (step c lower lower_strip p e w)

  -- Where the open transaction has all that is committed (as it has at the start of every
  -- request), what is committed later in a history of requests, turns of the worker with any
  -- locks, heartbeats and waits refines what was committed before as an append-only ledger:
  -- the audit logs, the workflow events and the users are those of before with rows appended, and so
  -- are the identities and owners of the sessions, the identities and idempotency keys of the
  -- jobs, and the identities and resource types of the deletion jobs; whatever is rolled back,
  -- retracted or deleted on the way, nothing of these is changed, reordered or lost.
  pub run-Appends :
      (es fs : List Event) (w : World)
      → Appends (ledger w.saved) (ledger w.db)
      → Appends
          (ledger (run c lower lower_strip p es w).saved)
          (ledger (run c lower lower_strip p (es ++ fs) w).saved)
  run-Appends es fs w h =
      let later = run-Recorded es (ledger w.saved) w (Appends-refl (ledger w.saved), h) in
      rw (run-append es fs w)
        (run-Recorded fs (ledger (run c lower lower_strip p es w).saved)
          (run c lower lower_strip p es w)
          (Appends-refl (ledger (run c lower lower_strip p es w).saved), later.1)).0
