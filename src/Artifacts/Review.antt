-- ===== src/Artifacts/Review.antt =====
-- The review and the publication of artifacts: what approve_artifact, reject_artifact and
-- request_publish of backend/app/artifacts/service.py do to the session, and what they refuse.
use ai_badge.Prelude.{
  ℕ, String, ◌≡◌, List, ◌∷◌, arith, ◌==◌, nat_eq, string_eq, find, find-true, find-update_where,
  suc, refl, ◌∙◌, true, false, none, some, [], ◌++◌,
}
use ai_badge.Model.{
  ArtifactStatus, Artifact, Db, World, ok, set_artifact, store, session_status_eq, job_status_eq,
  artifact_status_eq, SessionStatus, JobStatus, opt_eq, key_eq, Session, Job, IdempotencyKey,
  integrity_error, err, find_session, set_session,
}
use ai_badge.Model.Json.{str, uuid, end, field}
use ai_badge.Orchestrator.Service.{new_job}
use ai_badge.Sessions.Machine.{in_set, can_transition}
use ai_badge.Artifacts.Service.{
  remaining, reviewed, approve_artifact, transition_session, reject_artifact, request_publish,
  session_event, artifact_event,
}

abbrev pub approval : Artifact → String → World → Db
approval a comment w =
    set_artifact a.id (reviewed ArtifactStatus.approved "approved" comment w.now) w.db

-- Approving an artifact, while another one of its session is still not approved, succeeds and
-- changes that artifact; no session and no job changes, so the session waits.
pub approve_artifact-waits :
    (a b : Artifact) (rest : List Artifact) (reviewer : ℕ) (comment : String) (w : World)
    → remaining a.session_id (record w { db = approval a comment w }) ≡ b ∷ rest
    → ((approve_artifact a reviewer comment w).0 ≡ ok tt)
      × ((approve_artifact a reviewer comment w).1.db.artifacts ≡ (approval a comment w).artifacts)
      × ((approve_artifact a reviewer comment w).1.db.sessions ≡ w.sessions)
      × ((approve_artifact a reviewer comment w).1.db.jobs ≡ w.jobs)
unfolding approve_artifact store
approve_artifact-waits a b rest reviewer comment w h =
    (ground arith, ground arith, ground arith, ground arith)

-- A session's row behind a move to `t`.
abbrev pub moved : SessionStatus → ℕ → Session → Session
moved t now s = record s { status = t; updated_at = now }

abbrev moved_world : ℕ → SessionStatus → World → World
moved_world sid t w =
    let d = set_session sid (moved t w.now) w.db in
    record w {
      db = record d {
        workflow_events = w.workflow_events ++ session_event sid t w.fresh w.now ∷ [];
      };
      fresh = suc w.fresh;
    }

transition_session-moves :
    (sid : ℕ) (t : SessionStatus) (s : Session) (w : World)
    → find_session sid w ≡ some s
    → (can_transition s.status t false).0 ≡ true
    → transition_session sid t w ≡ (ok tt, moved_world sid t w)
unfolding transition_session store
transition_session-moves sid t s w h g = ground (arith, h, g)

moved_world-find :
    (sid : ℕ) (t : SessionStatus) (s : Session) (w : World)
    → find_session sid w ≡ some s
    → find_session sid (moved_world sid t w) ≡ some (moved t w.now s)
moved_world-find sid t s w h =
    let row =
      find-update_where (λ x. x.id == sid) (λ x. x.id == sid) (moved t w.now) (λ x. refl)
        w.sessions in
    let hit = find-true (λ x. x.id == sid) w.sessions s h in row ∙ rw h (rw hit)

-- The statuses from which a complete review ends in approval.
abbrev pub in_review : List SessionStatus
in_review = SessionStatus.needs_review ∷ SessionStatus.reviewing ∷ SessionStatus.approved ∷ []

abbrev pub retry_row : Artifact → String → ℕ → ℕ → ℕ → Job
retry_row a comment hex id now =
    new_job (IdempotencyKey.retry a.session_id hex) (some a.session_id) "extract_artifact"
      (field "retry_reason" (str comment) end) id now

abbrev rejected_world : Artifact → ℕ → String → World → World
rejected_world a reviewer comment w = record w {
  db = record (set_artifact a.id (reviewed ArtifactStatus.rejected "rejected" comment w.now) w.db) {
    workflow_events =
        w.workflow_events ++ artifact_event a "artifact_rejected" reviewer w.fresh w.now ∷ [];
    jobs = w.jobs ++ retry_row a comment (suc w.fresh) (suc (suc w.fresh)) w.now ∷ [];
  };
  fresh = suc (suc (suc w.fresh));
}

-- Rejecting an artifact succeeds if the key that is drawn for the retry is new, and never moves a
-- session: the artifact is rejected, and exactly one job is added, pending, to extract it again
-- with the comment as its reason.
pub reject_artifact-retries :
    (a : Artifact) (reviewer : ℕ) (comment : String) (w : World)
    → find (λ j. j.idempotency_key == IdempotencyKey.retry a.session_id (suc w.fresh)) w.jobs ≡ none
    → (j : Job) × (v : World) × (reject_artifact a reviewer comment w ≡ (ok j, v))
      × (v.db.jobs ≡ w.jobs ++ j ∷ [])
      × (j.job_type ≡ "extract_artifact")
      × (j.status ≡ JobStatus.pending)
      × (j.input_payload ≡ field "retry_reason" (str comment) end)
      × (v.db.artifacts
          ≡ (set_artifact a.id
              (reviewed ArtifactStatus.rejected "rejected" comment w.now)
              w.db).artifacts)
      × (v.db.sessions ≡ w.sessions)
unfolding reject_artifact store
reject_artifact-retries a reviewer comment w h = (
  retry_row a comment (suc w.fresh) (suc (suc w.fresh)) w.now,
  rejected_world a reviewer comment w,
  ground (arith, h),
  refl,
  refl,
  refl,
  refl,
  refl,
  refl,
)

abbrev pub publish_row : Artifact → ℕ → ℕ → Job
publish_row a id now =
    new_job (IdempotencyKey.publish a.session_id a.id) (some a.session_id) "publish"
      (field "artifact_id" (uuid a.id) end) id now

-- An approved artifact, whose session may move to publishing, and that was never queued: its publish
-- job is queued and the session is publishing.
pub request_publish-queues :
    (a : Artifact) (s : Session) (w : World)
    → a.status ≡ ArtifactStatus.approved
    → find_session a.session_id w ≡ some s
    → in_set s.status
        (SessionStatus.approved ∷ SessionStatus.publishing ∷ SessionStatus.publish_failed ∷ [])
      ≡ true
    → find (λ j. j.idempotency_key == IdempotencyKey.publish a.session_id a.id) w.jobs ≡ none
    → (v : World) × (request_publish a w ≡ (ok (publish_row a w.fresh w.now), v))
      × (v.db.jobs ≡ w.jobs ++ publish_row a w.fresh w.now ∷ [])
      × (find_session a.session_id v ≡ some (moved SessionStatus.publishing w.now s))
      × (v.db.artifacts ≡ w.artifacts)
unfolding request_publish store
request_publish-queues a s w ok' h g free =
    let u = record w {
      db = record w.db { jobs = w.jobs ++ publish_row a w.fresh w.now ∷ [] };
      fresh = suc w.fresh;
    } in
    let may : (can_transition s.status SessionStatus.publishing false).0 ≡ true =
      unfold can_transition in ground arith in
    let only = transition_session-moves a.session_id SessionStatus.publishing s u h may in
    let last = moved_world-find a.session_id SessionStatus.publishing s u h in
    (
      moved_world a.session_id SessionStatus.publishing u,
      ground (arith, ok', free, only),
      refl,
      last,
      refl,
    )

-- An artifact whose publish job is in the table is never queued again, whatever its session's
-- status: the unique key refuses it.
pub request_publish-taken :
    (a : Artifact) (j : Job) (w : World)
    → a.status ≡ ArtifactStatus.approved
    → find (λ j. j.idempotency_key == IdempotencyKey.publish a.session_id a.id) w.jobs ≡ some j
    → request_publish a w ≡ (err integrity_error, w)
unfolding request_publish store
request_publish-taken a j w ok' taken = ground arith
