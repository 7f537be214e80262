-- ===== src/Orchestrator/Keeps.antt =====
-- The invariant of the database through the operations of backend/app/orchestrator/service.py.
use ai_badge.Prelude.{ℕ, String, refl, Option, none, some, List, [], ◌∷◌, arith}
use ai_badge.Model.{JobStatus, Job, IdempotencyKey, add_job}
use ai_badge.Model.Json.{Fields}
use ai_badge.Model.Keeps.{Keeps, JobStep, keeps_rules, Keeps-pure, Keeps-bind}
use ai_badge.Model.Insert.{Keeps-add_job, insert_rules, Keeps-add_event}
use ai_badge.Orchestrator.Service.{
  new_job, pipeline_job, add_pipeline_jobs, add_created_events, create_jobs_for_session, ensure_job,
  ensure_next_job, transition_row, chain, transition_job,
}
use ai_badge.Model.Settled.{Scope, only}

pub Keeps-new_job :
    {own : Scope} (key : IdempotencyKey) (sid : Option ℕ) (t : String) (payload : Fields)
    → Keeps own (add_job (new_job key sid t payload))
Keeps-new_job key sid t payload =
    Keeps-add_job (new_job key sid t payload) (λ id now. refl) (λ id now. omega arith)

pub Keeps-pipeline_job :
    {own : Scope} (sid : Option ℕ) (t : String) → Keeps own (pipeline_job sid t)
unfolding pipeline_job
Keeps-pipeline_job sid t = search Keeps-new_job

Keeps-add_pipeline_jobs :
    {own : Scope} (sid : Option ℕ) (types : List String) → Keeps own (add_pipeline_jobs sid types)
unfolding add_pipeline_jobs
Keeps-add_pipeline_jobs sid [] = search keeps_rules
Keeps-add_pipeline_jobs sid (t ∷ types) =
    Keeps-bind _ _ (Keeps-pipeline_job sid t)
      λ job. Keeps-bind _ _ (Keeps-add_pipeline_jobs sid types) λ jobs. Keeps-pure _

Keeps-add_created_events : {own : Scope} (jobs : List Job) → Keeps own (add_created_events jobs)
unfolding add_created_events
Keeps-add_created_events [] = search keeps_rules
Keeps-add_created_events (j ∷ jobs) =
    Keeps-bind _ _ (Keeps-add_event _) λ _. Keeps-add_created_events jobs

pub Keeps-create_jobs_for_session :
    {own : Scope} (sid : ℕ) → Keeps own (create_jobs_for_session sid)
unfolding create_jobs_for_session
Keeps-create_jobs_for_session sid =
    search (keeps_rules, Keeps-add_pipeline_jobs, Keeps-add_created_events)

Keeps-ensure_job :
    {own : Scope} (sid : Option ℕ) (next : String) (o : Option Job)
    → Keeps own (ensure_job sid next o)
unfolding ensure_job
Keeps-ensure_job sid next none = search (keeps_rules, insert_rules, Keeps-pipeline_job)
Keeps-ensure_job sid next (some j) = search keeps_rules

pub Keeps-ensure_next_job :
    {own : Scope} (sid : Option ℕ) (next : String) → Keeps own (ensure_next_job sid next)
unfolding ensure_next_job
Keeps-ensure_next_job sid next = search (keeps_rules, Keeps-ensure_job)

Keeps-chain : {own : Scope} (sid : Option ℕ) (next : Option String) → Keeps own (chain sid next)
unfolding chain
Keeps-chain sid none = search keeps_rules
Keeps-chain sid (some next) = search (keeps_rules, Keeps-ensure_next_job)

pub transition_row-JobStep :
    (now : ℕ) (t : JobStatus) (out : Option Fields) (e : Option String)
    → JobStep (transition_row now t out e)
unfolding transition_row
transition_row-JobStep now t out e = record {
  id = λ j. ground arith;
  key = λ j. ground arith;
  retries = λ j h. ground arith;
}

pub Keeps-transition_job :
    (j : Job) (t : JobStatus) (out : Option Fields) (e : Option String)
    → Keeps (only j.id) (transition_job j t out e)
unfolding transition_job
Keeps-transition_job j t out e =
    search (keeps_rules, insert_rules, Keeps-chain, transition_row-JobStep)
