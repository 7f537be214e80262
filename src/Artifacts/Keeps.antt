-- ===== src/Artifacts/Keeps.antt =====
-- The invariant of the database through the requests on artifacts, backend/app/artifacts.
use ai_badge.Prelude.{ℕ, String, ◌≡◌, Option, none, some, arith}
use ai_badge.Model.{SessionStatus, Artifact, pure, ◌>>◌}
use ai_badge.Model.Keeps.{Keeps, keeps_rules}
use ai_badge.Model.Insert.{insert_rules}
use ai_badge.Orchestrator.Keeps.{Keeps-new_job}
use ai_badge.Artifacts.Service.{
  transition_session, advance_session, approve_artifact, reject_artifact, request_publish,
  mark_published,
}
use ai_badge.Artifacts.Router.{
  get_artifact_or_404, reply, set_title, set_content, set_summary, update_artifact, review,
  review_artifact, publish_artifact, ArtifactUpdateRequest, ReviewRequest, ReviewAction, approve,
  reject, list_artifacts, get_artifact,
}
use ai_badge.Model.Settled.{Scope}

ruleset rules = (keeps_rules, insert_rules, Keeps-new_job)

pub Keeps-transition_session :
    {own : Scope} (sid : ℕ) (t : SessionStatus) → Keeps own (transition_session sid t)
unfolding transition_session
Keeps-transition_session sid t = search rules depth 9

Keeps-advance_session : {own : Scope} (sid : ℕ) → Keeps own (advance_session sid)
unfolding advance_session
Keeps-advance_session sid = search (keeps_rules, Keeps-transition_session) depth 8

pub Keeps-approve_artifact :
    {own : Scope} (a : Artifact) (uid : ℕ) (comment : String)
    → Keeps own (approve_artifact a uid comment)
unfolding approve_artifact
Keeps-approve_artifact a uid comment = search (rules, Keeps-advance_session) depth 9

pub Keeps-reject_artifact :
    {own : Scope} (a : Artifact) (uid : ℕ) (comment : String)
    → Keeps own (reject_artifact a uid comment)
unfolding reject_artifact
Keeps-reject_artifact a uid comment = search rules depth 9

pub Keeps-request_publish : {own : Scope} (a : Artifact) → Keeps own (request_publish a)
unfolding request_publish
Keeps-request_publish a = search (rules, Keeps-transition_session) depth 8

pub Keeps-mark_published : {own : Scope} (a : Artifact) → Keeps own (mark_published a)
unfolding mark_published
Keeps-mark_published a = search (rules, Keeps-transition_session) depth 8

Keeps-get_artifact_or_404 : {own : Scope} (aid : Option ℕ) → Keeps own (get_artifact_or_404 aid)
unfolding get_artifact_or_404
Keeps-get_artifact_or_404 none = search keeps_rules
Keeps-get_artifact_or_404 (some aid) = search keeps_rules

Keeps-reply : {own : Scope} (aid : ℕ) → Keeps own (reply aid)
unfolding reply
Keeps-reply aid = search rules

edit_keeps_id :
    (body : ArtifactUpdateRequest) (a : Artifact)
    → (set_summary body.summary (set_content body.content (set_title body.title a))).id ≡ a.id
edit_keeps_id body a = ground arith

pub Keeps-update_artifact :
    {own : Scope} (aid : Option ℕ) (body : ArtifactUpdateRequest)
    → Keeps own (update_artifact aid body)
unfolding update_artifact
Keeps-update_artifact aid body =
    search (rules, Keeps-get_artifact_or_404, Keeps-reply, edit_keeps_id body) depth 8

Keeps-review :
    {own : Scope} (body : ReviewRequest) (uid : ℕ) (a : Artifact) → Keeps own (review body uid a)
unfolding review
Keeps-review body uid a = go body.action
  where
    go :
        {own : Scope} (action : ReviewAction)
        → Keeps own (elim action [
          | approve ↦ approve_artifact a uid body.comment
          | reject ↦ do reject_artifact a uid body.comment; pure tt
        ])
    go approve = Keeps-approve_artifact a uid body.comment
    go reject = search (keeps_rules, Keeps-reject_artifact)

pub Keeps-review_artifact :
    {own : Scope} (aid : Option ℕ) (body : ReviewRequest) (uid : ℕ)
    → Keeps own (review_artifact aid body uid)
unfolding review_artifact
Keeps-review_artifact aid body uid =
    search (rules, Keeps-get_artifact_or_404, Keeps-reply, Keeps-review) depth 8

pub Keeps-publish_artifact : {own : Scope} (aid : Option ℕ) → Keeps own (publish_artifact aid)
unfolding publish_artifact
Keeps-publish_artifact aid =
    search (rules, Keeps-get_artifact_or_404, Keeps-reply, Keeps-request_publish) depth 8

pub Keeps-list_artifacts :
    {own : Scope} (limit offset : ℕ) → Keeps own (list_artifacts limit offset)
unfolding list_artifacts
Keeps-list_artifacts limit offset = search keeps_rules

pub Keeps-get_artifact : {own : Scope} (aid : Option ℕ) → Keeps own (get_artifact aid)
unfolding get_artifact
Keeps-get_artifact aid = search (keeps_rules, Keeps-get_artifact_or_404)
