-- ===== src/Agents/Polling.antt =====
-- The turns of worker_loop in which the pipeline of a session runs.
use ai_badge.Prelude.{ℕ, Bool, false, string_eq, nat_eq}
use ai_badge.Model.{World, session_status_eq, job_status_eq, artifact_status_eq, opt_eq, key_eq}
use ai_badge.Orchestrator.Worker.{poll_cycle, Handlers}
use ai_badge.Agents.Providers.{Providers}

abbrev pub nothing_locked : ℕ → Bool
nothing_locked n = false

-- Three turns of the worker, with nothing locked, at one time.
unfoldable pub three_turns : Handlers → World → World
three_turns h w =
    poll_cycle h nothing_locked (poll_cycle h nothing_locked (poll_cycle h nothing_locked w))
