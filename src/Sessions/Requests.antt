-- ===== src/Sessions/Requests.antt =====
-- What the requests on one session do: what they require, what they write, and what they leave.
use ai_badge.Prelude.{
  not, ◌&&◌, select, List, select-update_other, ◌==◌, nat_eq, string_eq, find, omap, updated,
  find-true, find-update_where, find_by_key, ℕ, ◌≡◌, ap, Option, some, arith, Bool-cases, inl, inr,
  String, Option-cases, beq_refl, refl, ◌∙◌, false,
}
use ai_badge.Model.{
  session_status_eq, job_status_eq, artifact_status_eq, SessionStatus, opt_eq, key_eq, Session,
  modify, World, find_session, write_session, store, IsValid, ◌>>=◌, ok, parse_status,
}
use ai_badge.Trust.Redlines.{is_none}
use ai_badge.Sessions.Lifecycle.{can_transition-Move, Move}
use ai_badge.Sessions.Machine.{can_transition}
use ai_badge.Sessions.Schemas.{to_response, SessionResponse}
use ai_badge.Orchestrator.Creation.{create_jobs-sessions}
use ai_badge.Sessions.Router.{is_own, start_processing, move_session, reply}

-- The one row that a request of the user `uid` on the path parameter `sid` may touch.
abbrev pub own_session : ℕ → ℕ → World → Option Session
own_session sid uid w = find (is_own sid uid) w.sessions

-- In a valid database the row that a user owns is the row with that identifier.
pub own_session-find :
    (sid uid : ℕ) (s : Session) (w : World)
    → IsValid w
    → own_session sid uid w ≡ some s
    → (find_session sid w ≡ some s) × (s.id ≡ sid) × (s.user_id ≡ uid)
own_session-find sid uid s w v h =
    let own = find-true (is_own sid uid) w.sessions s h in
    let same : s.id ≡ sid = ground arith in
    (
      find_by_key (λ s. s.id) (is_own sid uid) sid s w.sessions v.open_db.sessions.distinct same h,
      same,
      ground arith,
    )

-- A write to one session, seen by a lookup of any session.
pub find_session-write :
    (k sid : ℕ) (f : Session → Session) (w : World)
    → ((s : Session) → (f s).id ≡ s.id)
    → find_session k (write_session sid f w).1
      ≡ omap (updated (λ s. s.id == sid) f) (find_session k w)
unfolding write_session modify
find_session-write k sid f w keep =
    find-update_where (λ s. s.id == k) (λ s. s.id == sid) f (λ s. ap (λ n. n == k) (keep s))
      w.sessions

start_processing-sessions :
    (s : Session) (t : SessionStatus) (w : World)
    → (start_processing s t w).1.db.sessions ≡ w.db.sessions
unfolding start_processing store
start_processing-sessions s t w = ground (arith, create_jobs-sessions s.id w)

abbrev pub with_status : SessionStatus → Session → Session
with_status t s = record s { status = t }

start_processing-audio :
    (s : Session) (t : SessionStatus) (w : World)
    → (start_processing s t w).0 ≡ ok tt
    → (t == SessionStatus.processing && is_none s.audio_key) ≡ false
unfolding start_processing store
start_processing-audio s t w h = ground arith

-- The guard passed, so the move is one of the diagram.
pub move_session-Move :
    (s : Session) (t : SessionStatus) (w : World)
    → (move_session s t w).0 ≡ ok tt
    → Move s.consent_granted s.status t
unfolding move_session ◌>>=◌
move_session-Move s t w h = elim (Bool-cases (can_transition s.status t s.consent_granted).0) [
  | inl e ↦ (can_transition-Move s.status t s.consent_granted).0 e
  | inr e ↦ absurd (ground arith)
]

pub move_session-audio :
    (s : Session) (t : SessionStatus) (w : World)
    → (move_session s t w).0 ≡ ok tt
    → (t == SessionStatus.processing && is_none s.audio_key) ≡ false
unfolding move_session store
move_session-audio s t w h =
    start_processing-audio s t (write_session s.id (with_status t) w).1 (ground arith)

move_session-sessions :
    (s : Session) (t : SessionStatus) (w : World)
    → (move_session s t w).0 ≡ ok tt
    → (move_session s t w).1.db.sessions ≡ (write_session s.id (with_status t) w).1.db.sessions
unfolding move_session ◌>>=◌
move_session-sessions s t w h =
    ground (arith, start_processing-sessions s t (write_session s.id (with_status t) w).1)

-- The sessions with another identifier, in the order of the table.
abbrev pub other_sessions : ℕ → World → List Session
other_sessions sid w = select (λ r. not (r.id == sid)) w.sessions

-- What a successful change of status tells: the row it was about, the move it made, and the
-- database behind it.
pub record StatusChanged (sid uid : ℕ) (text : String) (w w' : World) (r : SessionResponse)
    : Type 0 where
  pub before : Session
  pub target : SessionStatus
  pub owned : own_session sid uid w ≡ some before
  pub parsed : parse_status text ≡ some target
  pub moved : Move before.consent_granted before.status target
  pub audio : (target == SessionStatus.processing && is_none before.audio_key) ≡ false
  pub stored : find_session sid w' ≡ some (with_status target before)
  pub answer : r ≡ to_response (with_status target before)
  pub others : other_sessions sid w' ≡ other_sessions sid w
  pub committed : w'.saved ≡ w'.db

-- A lookup of the row in the world that a passed reply leaves.
reply-eq-ok :
    (sid : ℕ) (w w' : World) (r : SessionResponse)
    → reply sid w ≡ (ok r, w')
    → (s : Session) × (find_session sid w ≡ some s) × (r ≡ to_response s) × (w' ≡ w)
unfolding reply store
reply-eq-ok sid w w' r h = elim (Option-cases (find_session sid w)) [
  | inl e ↦ absurd (ground arith)
  | inr (s, e) ↦ (s, e, ground arith, ground arith)
]

pub move_session-others :
    (s : Session) (t : SessionStatus) (w : World)
    → (move_session s t w).0 ≡ ok tt
    → other_sessions s.id (move_session s t w).1 ≡ other_sessions s.id w
unfolding write_session modify
move_session-others s t w h =
    ap (select (λ r. not (r.id == s.id))) (move_session-sessions s t w h)
    ∙ select-update_other (λ r. r.id) s.id (with_status t) (λ r. refl) w.sessions

move_session-find :
    (s : Session) (t : SessionStatus) (k : ℕ) (w : World)
    → (move_session s t w).0 ≡ ok tt
    → find_session k (move_session s t w).1
      ≡ omap (updated (λ r. r.id == s.id) (with_status t)) (find_session k w)
move_session-find s t k w h =
    ap (find (λ r. r.id == k)) (move_session-sessions s t w h)
    ∙ find_session-write k s.id (with_status t) w (λ r. refl)

-- The part of update_session_status behind the lookup and the parse, where it succeeds.
pub moved_reply :
    (s : Session) (t : SessionStatus) (w v : World) (r : SessionResponse)
    → find_session s.id w ≡ some s
    → (move_session s t >>= λ _. reply s.id) w ≡ (ok r, v)
    → ((move_session s t w).0 ≡ ok tt)
      × (v ≡ (move_session s t w).1)
      × (find_session s.id v ≡ some (with_status t s))
      × (r ≡ to_response (with_status t s))
unfolding ◌>>=◌
moved_reply s t w v r found h =
    let moved : (move_session s t w).0 ≡ ok tt = ground arith in
    let answered : reply s.id (move_session s t w).1 ≡ (ok r, v) = ground arith in
    let (u, hu, hr, hv) = reply-eq-ok s.id (move_session s t w).1 v r answered in
    let written = move_session-find s t s.id w moved in
    let same : u ≡ with_status t s = ground (arith, found, hu, written, beq_refl s.id) in
    (moved, hv, rw hv (rw hu (rw same)), rw hr (rw same))
