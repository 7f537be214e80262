-- ===== src/Agents/Keeps.antt =====
-- The invariant of the database through the handlers of backend/app/agents.
use ai_badge.Prelude.{
  delete_where, ℕ, String, refl, Option, none, some, ◌==◌, nat_eq, string_eq, OnSome-if,
}
use ai_badge.Model.{
  Job, Artifact, DeletionJob, modify, Result, write_job, IsTable-delete_where, session_status_eq,
  job_status_eq, artifact_status_eq, opt_eq, key_eq,
}
use ai_badge.Model.Json.{Json, Fields}
use ai_badge.Model.Ledger.{ledger, Appends-refl}
use ai_badge.Model.Keeps.{Keeps-modify, Keeps-write_job, Keeps, keeps_rules}
use ai_badge.Model.Insert.{insert_rules}
use ai_badge.Orchestrator.Worker.Keeps.{HandlersKeep}
use ai_badge.Artifacts.Keeps.{Keeps-mark_published}
use ai_badge.Agents.Providers.{Providers}
use ai_badge.Agents.Capture.{lift, transcribe_audio, completed_with, handle_transcribe_job}
use ai_badge.Agents.Distiller.{
  get_transcript, get_summarize_result, handle_summarize_job, store_artifact,
  handle_extract_artifact_job,
}
use ai_badge.Agents.Integration.{publish_found, handle_publish_job}
use ai_badge.Agents.Deletion.{
  is_of, handle_delete_artifacts, remove_file, handle_delete_audio, handle_delete_feishu,
}
use ai_badge.Agents.Registry.{job_handler, deletion_handler, handlers}
use ai_badge.Model.Settled.{Scope, only}

Keeps-lift : {own : Scope} {A : Type 0} (r : Result A) → Keeps own (lift r)
unfolding lift
Keeps-lift r = record { at = λ w h. h; records = λ l w h. h; spares = λ k row w out h. h }

Keeps-complete :
    (jid : ℕ) (output : Fields) → Keeps (only jid) (write_job jid (completed_with output))
Keeps-complete jid output =
    Keeps-write_job jid _ (record { id = λ j. refl; key = λ j. refl; retries = λ j h. h })

ruleset rules = (keeps_rules, insert_rules, Keeps-lift, Keeps-complete)

Keeps-transcribe_audio :
    {own : Scope} (p : Providers) (key : String) → Keeps own (transcribe_audio p key)
unfolding transcribe_audio
Keeps-transcribe_audio p key = Keeps-lift _

pub Keeps-handle_transcribe_job :
    (p : Providers) (j : Job) → Keeps (only j.id) (handle_transcribe_job p j)
unfolding handle_transcribe_job
Keeps-handle_transcribe_job p j = search rules depth 9

Keeps-get_transcript : {own : Scope} (j : Job) → Keeps own (get_transcript j)
unfolding get_transcript
Keeps-get_transcript j = search keeps_rules depth 8

Keeps-get_summarize_result : {own : Scope} (sid : Option ℕ) → Keeps own (get_summarize_result sid)
unfolding get_summarize_result
Keeps-get_summarize_result sid = search keeps_rules depth 8

pub Keeps-handle_summarize_job :
    (p : Providers) (j : Job) → Keeps (only j.id) (handle_summarize_job p j)
unfolding handle_summarize_job
Keeps-handle_summarize_job p j = search (rules, Keeps-get_transcript) depth 8

Keeps-store_artifact :
    (j : Job) (t : String) (title : Json) (content : Fields) (summary : Json)
    → Keeps (only j.id) (store_artifact j t title content summary)
unfolding store_artifact
Keeps-store_artifact j t title content summary = search rules depth 9

pub Keeps-handle_extract_artifact_job :
    (p : Providers) (j : Job) → Keeps (only j.id) (handle_extract_artifact_job p j)
unfolding handle_extract_artifact_job
Keeps-handle_extract_artifact_job p j =
    search (rules, Keeps-get_transcript, Keeps-get_summarize_result, Keeps-store_artifact) depth 9

Keeps-publish_found : {own : Scope} (o : Option Artifact) → Keeps own (publish_found o)
unfolding publish_found
Keeps-publish_found none = search keeps_rules
Keeps-publish_found (some a) = Keeps-mark_published a

pub Keeps-handle_publish_job : (j : Job) → Keeps (only j.id) (handle_publish_job j)
unfolding handle_publish_job
Keeps-handle_publish_job j = search (rules, Keeps-publish_found) depth 9

Keeps-delete_rows :
    {own : Scope} (sid : Option ℕ)
    → Keeps own (modify (λ d. record d { artifacts = delete_where (is_of sid) d.artifacts }))
Keeps-delete_rows sid =
    Keeps-modify _
      (λ bound d h. record {
        sessions = h.sessions;
        jobs = h.jobs;
        artifacts = IsTable-delete_where _ bound (is_of sid) d.artifacts h.artifacts;
        deletion_jobs = h.deletion_jobs;
        keys = h.keys;
        retries = h.retries;
      })
      (λ d. Appends-refl (ledger d)) λ k row d out fin h. h

pub Keeps-handle_delete_artifacts :
    {own : Scope} (j : DeletionJob) → Keeps own (handle_delete_artifacts j)
unfolding handle_delete_artifacts
Keeps-handle_delete_artifacts j = search (rules, Keeps-delete_rows) depth 8

Keeps-remove_file : {own : Scope} (p : Providers) (o : Option String) → Keeps own (remove_file p o)
unfolding remove_file
Keeps-remove_file p none = record {
  at = λ w h. h;
  records = λ l w h. h;
  spares = λ k row w out h. h;
}
Keeps-remove_file p (some k) = record {
  at = λ w h. record { open_db = h.open_db; saved_db = h.saved_db };
  records = λ l w h. h;
  spares = λ k row w out h. h;
}

pub Keeps-handle_delete_audio :
    {own : Scope} (p : Providers) (j : DeletionJob) → Keeps own (handle_delete_audio p j)
unfolding handle_delete_audio
Keeps-handle_delete_audio p j = search (rules, Keeps-remove_file) depth 8

pub Keeps-handle_delete_feishu :
    {own : Scope} (j : DeletionJob) → Keeps own (handle_delete_feishu j)
unfolding handle_delete_feishu
Keeps-handle_delete_feishu j = search rules depth 8

-- The registry of the agents meets what the worker asks of its handlers.
pub handlers-HandlersKeep : (p : Providers) → HandlersKeep (handlers p)
unfolding job_handler deletion_handler
handlers-HandlersKeep p = record {
  job = λ t. OnSome-if _ (t == "transcribe") _ _ (Keeps-handle_transcribe_job p) (
      OnSome-if _ (t == "summarize") _ _ (Keeps-handle_summarize_job p) (
        OnSome-if _ (t == "extract_artifact") _ _ (Keeps-handle_extract_artifact_job p)
          (OnSome-if _ (t == "publish") _ none Keeps-handle_publish_job tt)));
  deletion = λ t. OnSome-if _ (t == "delete_artifact_rows") _ _ Keeps-handle_delete_artifacts (
      OnSome-if _ (t == "delete_local_audio") _ _ (Keeps-handle_delete_audio p)
        (OnSome-if _ (t == "delete_feishu_docs") _ none Keeps-handle_delete_feishu tt));
}
