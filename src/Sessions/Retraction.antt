-- ===== src/Sessions/Retraction.antt =====
-- POST /sessions/{id}/retract: the saga that retract_session of backend/app/sessions/service.py
-- starts, behind the policy check and with its audit entry.
use ai_badge.Prelude.{
  ℕ, suc, ◌≡◌, some, List, [], ◌∷◌, ◌++◌, arith, refl, none, nat_eq, string_eq, ◌⊕◌, ◌==◌, false,
}
use ai_badge.Model.{
  SessionStatus, Session, DeletionJob, World, write_session, store, AuditLog, request,
  session_status_eq, job_status_eq, artifact_status_eq, opt_eq, key_eq, session_value, status_code,
  Refused, policy_violation,
}
use ai_badge.Model.Json.{str, end, field}
use ai_badge.Trust.Redlines.{redline_published_before_retract}
use ai_badge.Trust.Policy.{check_retract}
use ai_badge.Sessions.Service.{new_deletion_job, json_of_key, tombstone}
use ai_badge.Sessions.Router.{get_session_or_404, retract_session_endpoint}
use ai_badge.Sessions.Requests.{own_session}

-- The three deletion jobs of a retraction, in order.
abbrev pub saga : Session → ℕ → ℕ → List DeletionJob
saga s id now =
    new_deletion_job "delete_artifact_rows" s.id
      (field "description" (str "Hard-delete all artifacts") end) id now
    ∷ new_deletion_job "delete_local_audio" s.id (field "audio_key" (json_of_key s.audio_key) end)
        (suc id) now
    ∷ new_deletion_job "delete_feishu_docs" s.id (field "description" (str "Feishu stub") end)
        (suc (suc id)) now
    ∷ []

-- The world behind a retraction by `uid` of the session `s`.
abbrev pub retracted_world : Session → ℕ → World → World
retracted_world s uid w =
    let t = (write_session s.id (tombstone w.now uid "") w).1 in
    record t {
      db = record t.db {
        deletion_jobs =
            ((w.deletion_jobs
                ++ new_deletion_job "delete_artifact_rows" s.id
                    (field "description" (str "Hard-delete all artifacts") end) w.fresh w.now
                  ∷ [])
              ++ new_deletion_job "delete_local_audio" s.id
                  (field "audio_key" (json_of_key s.audio_key) end) (suc w.fresh) w.now
                ∷ [])
            ++ new_deletion_job "delete_feishu_docs" s.id
                (field "description" (str "Feishu stub") end) (suc (suc w.fresh)) w.now
              ∷ [];
      };
      fresh = suc (suc (suc w.fresh));
    }

-- The audit entry of the request.
abbrev pub retract_log : Session → ℕ → ℕ → ℕ → AuditLog
retract_log s uid id now = record {
  id = id;
  user_id = some uid;
  action = "retract_initiated";
  resource_type = "session";
  resource_id = some s.id;
  session_id = some s.id;
  artifact_id = none;
  details = none;
  ip_address = none;
  created_at = now;
}

-- The world behind the whole request, committed.
abbrev logged_world : Session → ℕ → World → World
logged_world s uid w =
    let t = retracted_world s uid w in
    let d = record t.db { audit_logs = w.audit_logs ++ retract_log s uid t.fresh w.now ∷ [] } in
    record t { db = d; saved = d; fresh = suc t.fresh }

-- The world behind the audit entry, before the commit.
abbrev noted_world : Session → ℕ → World → World
noted_world s uid w =
    let t = retracted_world s uid w in
    record t {
      db = record t.db { audit_logs = w.audit_logs ++ retract_log s uid t.fresh w.now ∷ [] };
      fresh = suc t.fresh;
    }

-- A session of the user that is not published is never retracted by this request: 403, and nothing
-- changes; so a session that is being retracted cannot be retracted twice.
pub retract_session_endpoint-Refused :
    (sid uid : ℕ) (s : Session) (w : World)
    → own_session sid uid w ≡ some s
    → (s.status == SessionStatus.published) ≡ false
    → Refused (retract_session_endpoint (some sid) uid) w 403
unfolding retract_session_endpoint get_session_or_404 check_retract redline_published_before_retract
    request store status_code
retract_session_endpoint-Refused sid uid s w own other = (
  policy_violation ("Session status is '" ⊕ session_value s.status ⊕ "', not 'published'") "L1",
  ground (arith, own, other),
  refl,
)
