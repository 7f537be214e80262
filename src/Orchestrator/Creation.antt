-- ===== src/Orchestrator/Creation.antt =====
-- What create_jobs_for_session and _ensure_next_job of backend/app/orchestrator/service.py do.
use ai_badge.Prelude.{ℕ, ◌≡◌, arith}
use ai_badge.Model.{World, store}
use ai_badge.Orchestrator.Service.{create_jobs_for_session}

pub create_jobs-sessions :
    (sid : ℕ) (w : World) → (create_jobs_for_session sid w).1.db.sessions ≡ w.db.sessions
unfolding create_jobs_for_session store
create_jobs-sessions sid w = ground arith
