-- ===== src/Sessions/Processing.antt =====
-- PATCH /sessions/{id}/status to "processing": the start of the pipeline, and what a second start
-- meets.
use ai_badge.Prelude.{find-true, ℕ, String, ◌≡◌, refl, sym, subst, some, arith, nat_eq, string_eq}
use ai_badge.Model.{
  SessionStatus, Session, Job, IdempotencyKey, request, status_code, Refused, World,
  integrity_error, err, write_session, store, session_status_eq, job_status_eq, artifact_status_eq,
  parse_status, opt_eq, key_eq,
}
use ai_badge.Orchestrator.Jobs.{job_with_key, create_jobs_for_session-taken, created_world}
use ai_badge.Sessions.Lifecycle.{can_transition-Move, Move}
use ai_badge.Sessions.Requests.{own_session, with_status}
use ai_badge.Sessions.Router.{
  is_own, get_session_or_404, start_processing, move_session, update_session_status,
}

own-id : (sid uid : ℕ) (s : Session) (w : World) → own_session sid uid w ≡ some s → s.id ≡ sid
own-id sid uid s w h = let own = find-true (is_own sid uid) w.sessions s h in ground arith

parsed : parse_status "processing" ≡ some SessionStatus.processing
unfolding parse_status
parsed = refl

abbrev key_of : ℕ → String → IdempotencyKey
key_of sid t = IdempotencyKey.pipeline (some sid) t

-- The world behind the status and the jobs, before the commit.
abbrev pub started_world : Session → World → World
started_world s w =
    created_world s.id (write_session s.id (with_status SessionStatus.processing) w).1

move_session-taken :
    (s : Session) (key : String) (j : Job) (w : World)
    → Move s.consent_granted s.status SessionStatus.processing
    → s.audio_key ≡ some key
    → job_with_key (key_of s.id "transcribe") w ≡ some j
    → move_session s SessionStatus.processing w
      ≡ (err integrity_error, (write_session s.id (with_status SessionStatus.processing) w).1)
unfolding move_session start_processing store
move_session-taken s key j w m a h =
    let open' = (can_transition-Move s.status SessionStatus.processing s.consent_granted).1 m in
    let taken =
      create_jobs_for_session-taken s.id j
        (write_session s.id (with_status SessionStatus.processing) w).1 h in
    ground (arith, open', taken, a)

-- A user's session with audio that is processed again (after processing_failed, or while it is
-- processing), and whose transcription job is in the table: the request is answered with a server
-- error and changes nothing.
pub update_session_status-again :
    (sid uid : ℕ) (s : Session) (key : String) (j : Job) (w : World)
    → own_session sid uid w ≡ some s
    → Move s.consent_granted s.status SessionStatus.processing
    → s.audio_key ≡ some key
    → job_with_key (key_of sid "transcribe") w ≡ some j
    → Refused (update_session_status (some sid) "processing" uid) w 500
unfolding update_session_status get_session_or_404 request store
update_session_status-again sid uid s key j w own m a h =
    let here =
      subst (λ k. job_with_key (key_of k "transcribe") w ≡ some j) (sym (own-id sid uid s w own))
        h in
    let taken = move_session-taken s key j w m a here in
    (integrity_error, ground (arith, taken, parsed), unfold status_code in refl)
