-- ===== src/Artifacts/Router.antt =====
-- backend/app/artifacts/router.py and its schemas: the requests on artifacts. Every user sees every
-- artifact. A path parameter is the outcome of `uuid.UUID(artifact_id)`.
use ai_badge.Prelude.{
  ltb, length, take, drop, order_by, ℕ, String, Bool, Option, none, some, List, map,
}
use ai_badge.Model.{
  ArtifactStatus, Artifact, Action, pure, raise, gets, or_raise, raise_if, http, find_artifact,
  write_artifact, refresh_artifact, ◌>>=◌, ◌>>◌,
}
use ai_badge.Model.Json.{Json, Fields}
use ai_badge.Trust.Redlines.{is_unapproved}
use ai_badge.Artifacts.Service.{approve_artifact, reject_artifact, request_publish}

pub record ArtifactResponse : Type 0 where
  pub id : ℕ
  pub session_id : ℕ
  pub job_id : Option ℕ
  pub artifact_type : String
  pub title : Option Json
  pub content : Fields
  pub summary : Option Json
  pub status : ArtifactStatus
  pub assigned_reviewer_id : Option ℕ
  pub review_status : Option String
  pub review_comment : Option String
  pub published_at : Option ℕ
  pub created_at : ℕ
  pub updated_at : ℕ

pub record ArtifactListResponse : Type 0 where
  pub artifacts : List ArtifactResponse
  pub total : ℕ

pub record ArtifactUpdateRequest : Type 0 where
  pub title : Option String
  pub content : Option Fields
  pub summary : Option String

-- `Literal["approve", "reject"]`
pub data ReviewAction : Type 0 where
  approve reject : ReviewAction

pub record ReviewRequest : Type 0 where
  pub action : ReviewAction
  pub comment : String

unfoldable pub to_response : Artifact → ArtifactResponse
to_response a = record {
  id = a.id;
  session_id = a.session_id;
  job_id = a.job_id;
  artifact_type = a.artifact_type;
  title = a.title;
  content = a.content;
  summary = a.summary;
  status = a.status;
  assigned_reviewer_id = a.assigned_reviewer_id;
  review_status = a.review_status;
  review_comment = a.review_comment;
  published_at = a.published_at;
  created_at = a.created_at;
  updated_at = a.updated_at;
}

unfoldable pub get_artifact_or_404 : Option ℕ → Action Artifact
get_artifact_or_404 none = raise (http 404 "Artifact not found")
get_artifact_or_404 (some aid) = do
  found ← gets (find_artifact aid)
  or_raise found (http 404 "Artifact not found")

unfoldable pub reply : ℕ → Action ArtifactResponse
reply aid = do a ← refresh_artifact aid; pure (to_response a)

abbrev newer : Artifact → Artifact → Bool
newer a b = ltb b.created_at a.created_at

unfoldable pub list_artifacts : ℕ → ℕ → Action ArtifactListResponse
list_artifacts limit offset = do
  rows ← gets (λ w. w.artifacts)
  pure (record {
    artifacts = map to_response (take limit (drop offset (order_by newer rows)));
    total = length rows;
  })

unfoldable pub get_artifact : Option ℕ → Action ArtifactResponse
unfolding get_artifact_or_404 to_response
get_artifact artifact_id = do a ← get_artifact_or_404 artifact_id; pure (to_response a)

abbrev pub set_title : Option String → Artifact → Artifact
set_title none a = a
set_title (some t) a = record a { title = some (Json.str t) }

abbrev pub set_content : Option Fields → Artifact → Artifact
set_content none a = a
set_content (some c) a = record a { content = c }

abbrev pub set_summary : Option String → Artifact → Artifact
set_summary none a = a
set_summary (some t) a = record a { summary = some (Json.str t) }

unfoldable pub update_artifact : Option ℕ → ArtifactUpdateRequest → Action ArtifactResponse
unfolding get_artifact_or_404 reply to_response
update_artifact artifact_id body = do
  a ← get_artifact_or_404 artifact_id
  write_artifact a.id
      (λ r. set_summary body.summary (set_content body.content (set_title body.title r)))
  reply a.id

unfoldable pub review : ReviewRequest → ℕ → Artifact → Action Unit
unfolding approve_artifact reject_artifact
review body reviewer a = elim body.action [
  | approve ↦ approve_artifact a reviewer body.comment
  | reject ↦ do reject_artifact a reviewer body.comment; pure tt
]

unfoldable pub review_artifact : Option ℕ → ReviewRequest → ℕ → Action ArtifactResponse
unfolding get_artifact_or_404 reply to_response review
review_artifact artifact_id body reviewer = do
  a ← get_artifact_or_404 artifact_id
  review body reviewer a
  reply a.id

unfoldable pub publish_artifact : Option ℕ → Action ArtifactResponse
unfolding get_artifact_or_404 reply to_response request_publish
publish_artifact artifact_id = do
  a ← get_artifact_or_404 artifact_id
  raise_if (is_unapproved a) (http 403 "Only approved artifacts can be published")
  request_publish a
  reply a.id
