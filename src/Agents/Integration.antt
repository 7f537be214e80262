-- ===== src/Agents/Integration.antt =====
-- backend/app/agents/integration.py: the publish job.
use Prim.Native.String
use ai_badge.Prelude.{◌⊕◌, decimal, ℕ, Option, none, some}
use ai_badge.Model.{
  Job, Artifact, Action, pure, gets, or_raise, commit, value_error, find_artifact, write_job, ◌>>=◌,
  ◌>>◌,
}
use ai_badge.Model.Json.{get_or, Json, null, str, uuid, Fields, end, field}
use ai_badge.Artifacts.Service.{mark_published}
use ai_badge.Agents.Capture.{completed_with}

-- The identifier under "artifact_id", which request_publish writes.
abbrev pub artifact_id_of : Fields → Option ℕ
artifact_id_of payload = as_id (get_or "artifact_id" null payload)
  where
    as_id : Json → Option ℕ
    as_id (uuid id) = some id
    as_id _ = none

unfoldable pub publish_found : Option Artifact → Action Unit
unfolding mark_published
publish_found none = pure tt
publish_found (some a) = mark_published a

unfoldable pub handle_publish_job : Job → Action Unit
unfolding publish_found
handle_publish_job j = do
  artifact_id ←
      or_raise (artifact_id_of j.input_payload)
        (value_error "publish job missing artifact_id in input_payload")
  found ← gets (find_artifact artifact_id)
  publish_found found
  write_job j.id (
      completed_with
        (field "feishu_doc_id" (str ("feishu-doc-" ⊕ String.slice (decimal artifact_id) 0 8)) end))
  commit
