-- ===== src/Artifacts/Pending.antt =====
-- The committed state during the requests on artifacts, backend/app/artifacts.
use ai_badge.Prelude.{ℕ, String, Option, none, some}
use ai_badge.Model.{SessionStatus, Artifact, pure, ◌>>◌}
use ai_badge.Model.Pending.{Pending, pending_rules}
use ai_badge.Artifacts.Service.{
  transition_session, advance_session, approve_artifact, reject_artifact, request_publish,
}
use ai_badge.Artifacts.Router.{
  get_artifact_or_404, reply, update_artifact, review, review_artifact, publish_artifact,
  ArtifactUpdateRequest, ReviewRequest, ReviewAction, approve, reject, list_artifacts, get_artifact,
}

pub Pending-transition_session : (sid : ℕ) (t : SessionStatus) → Pending (transition_session sid t)
unfolding transition_session
Pending-transition_session sid t = search pending_rules depth 9

Pending-advance_session : (sid : ℕ) → Pending (advance_session sid)
unfolding advance_session
Pending-advance_session sid = search (pending_rules, Pending-transition_session) depth 8

pub Pending-approve_artifact :
    (a : Artifact) (uid : ℕ) (comment : String) → Pending (approve_artifact a uid comment)
unfolding approve_artifact
Pending-approve_artifact a uid comment = search (pending_rules, Pending-advance_session) depth 9

pub Pending-reject_artifact :
    (a : Artifact) (uid : ℕ) (comment : String) → Pending (reject_artifact a uid comment)
unfolding reject_artifact
Pending-reject_artifact a uid comment = search pending_rules depth 9

pub Pending-request_publish : (a : Artifact) → Pending (request_publish a)
unfolding request_publish
Pending-request_publish a = search (pending_rules, Pending-transition_session) depth 8

Pending-get_artifact_or_404 : (aid : Option ℕ) → Pending (get_artifact_or_404 aid)
unfolding get_artifact_or_404
Pending-get_artifact_or_404 none = search pending_rules
Pending-get_artifact_or_404 (some aid) = search pending_rules

Pending-reply : (aid : ℕ) → Pending (reply aid)
unfolding reply
Pending-reply aid = search pending_rules

pub Pending-update_artifact :
    (aid : Option ℕ) (body : ArtifactUpdateRequest) → Pending (update_artifact aid body)
unfolding update_artifact
Pending-update_artifact aid body =
    search (pending_rules, Pending-get_artifact_or_404, Pending-reply) depth 8

Pending-review : (body : ReviewRequest) (uid : ℕ) (a : Artifact) → Pending (review body uid a)
unfolding review
Pending-review body uid a = go body.action
  where
    go :
        (action : ReviewAction)
        → Pending (elim action [
          | approve ↦ approve_artifact a uid body.comment
          | reject ↦ do reject_artifact a uid body.comment; pure tt
        ])
    go approve = Pending-approve_artifact a uid body.comment
    go reject = search (pending_rules, Pending-reject_artifact)

pub Pending-review_artifact :
    (aid : Option ℕ) (body : ReviewRequest) (uid : ℕ) → Pending (review_artifact aid body uid)
unfolding review_artifact
Pending-review_artifact aid body uid =
    search (pending_rules, Pending-get_artifact_or_404, Pending-reply, Pending-review) depth 8

pub Pending-publish_artifact : (aid : Option ℕ) → Pending (publish_artifact aid)
unfolding publish_artifact
Pending-publish_artifact aid =
    search (pending_rules, Pending-get_artifact_or_404, Pending-reply, Pending-request_publish)
      depth 8

pub Pending-list_artifacts : (limit offset : ℕ) → Pending (list_artifacts limit offset)
unfolding list_artifacts
Pending-list_artifacts limit offset = search pending_rules

pub Pending-get_artifact : (aid : Option ℕ) → Pending (get_artifact aid)
unfolding get_artifact
Pending-get_artifact aid = search (pending_rules, Pending-get_artifact_or_404)
