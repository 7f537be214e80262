-- ===== src/Orchestrator/Pending.antt =====
-- The committed state during the operations of backend/app/orchestrator/service.py.
use ai_badge.Prelude.{ℕ, String, Option, List, [], ◌∷◌}
use ai_badge.Model.{Job}
use ai_badge.Model.Pending.{Pending-pure, Pending-bind, Pending-add_event, Pending, pending_rules}
use ai_badge.Orchestrator.Service.{
  pipeline_job, add_pipeline_jobs, add_created_events, create_jobs_for_session,
}

Pending-pipeline_job : (sid : Option ℕ) (t : String) → Pending (pipeline_job sid t)
unfolding pipeline_job
Pending-pipeline_job sid t = search pending_rules

Pending-add_pipeline_jobs :
    (sid : Option ℕ) (types : List String) → Pending (add_pipeline_jobs sid types)
unfolding add_pipeline_jobs
Pending-add_pipeline_jobs sid [] = search pending_rules
Pending-add_pipeline_jobs sid (t ∷ types) =
    Pending-bind _ _ (Pending-pipeline_job sid t)
      λ job. Pending-bind _ _ (Pending-add_pipeline_jobs sid types) λ jobs. Pending-pure _

Pending-add_created_events : (jobs : List Job) → Pending (add_created_events jobs)
unfolding add_created_events
Pending-add_created_events [] = search pending_rules
Pending-add_created_events (j ∷ jobs) =
    Pending-bind _ _ (Pending-add_event _) λ _. Pending-add_created_events jobs

pub Pending-create_jobs_for_session : (sid : ℕ) → Pending (create_jobs_for_session sid)
unfolding create_jobs_for_session
Pending-create_jobs_for_session sid =
    search (pending_rules, Pending-add_pipeline_jobs, Pending-add_created_events)
