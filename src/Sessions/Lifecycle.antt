-- ===== src/Sessions/Lifecycle.antt =====
-- What can_transition of backend/app/sessions/service.py allows, against the life of a session as
-- a relation, and where that life can go.
use ai_badge.Prelude.{
  ◌≡◌, ◌≢◌, Bool, true, false, arith, Bool-cases, ◌==◌, nat_eq, string_eq, ℕ, ◌≤◌, ◌↔◌, inl, inr,
  not, ◌<◌, ◌⊎◌,
}
use ai_badge.Model.{
  SessionStatus, session_status_eq, job_status_eq, artifact_status_eq, opt_eq, key_eq,
}
use ai_badge.Sessions.Machine.{can_transition}

-- The edges of the diagram in the README, with the consent that recording wants.
pub data Edge (consent : Bool) : SessionStatus → SessionStatus → Type 0 where
  begin : consent ≡ true → Edge consent SessionStatus.idle SessionStatus.capturing
  resume : consent ≡ true → Edge consent SessionStatus.paused SessionStatus.capturing
  pause : Edge consent SessionStatus.capturing SessionStatus.paused
  process : Edge consent SessionStatus.capturing SessionStatus.processing
  reprocess : Edge consent SessionStatus.processing_failed SessionStatus.processing
  distilled : Edge consent SessionStatus.processing SessionStatus.needs_review
  distil_failed : Edge consent SessionStatus.processing SessionStatus.processing_failed
  review : Edge consent SessionStatus.needs_review SessionStatus.reviewing
  approve : Edge consent SessionStatus.reviewing SessionStatus.approved
  publish : Edge consent SessionStatus.approved SessionStatus.publishing
  republish : Edge consent SessionStatus.publish_failed SessionStatus.publishing
  publish_done : Edge consent SessionStatus.publishing SessionStatus.published
  publish_fail : Edge consent SessionStatus.publishing SessionStatus.publish_failed
  retract : Edge consent SessionStatus.published SessionStatus.retracting
  retract_done : Edge consent SessionStatus.retracting SessionStatus.retracted
  cancel_idle : Edge consent SessionStatus.idle SessionStatus.cancelled
  cancel_capturing : Edge consent SessionStatus.capturing SessionStatus.cancelled
  cancel_paused : Edge consent SessionStatus.paused SessionStatus.cancelled

-- Cancelled and retracted sessions are finished.
abbrev pub is_terminal : SessionStatus → Bool
is_terminal SessionStatus.cancelled = true
is_terminal SessionStatus.retracted = true
is_terminal _ = false

-- A move: along an edge, or nowhere at all from a session that is not finished.
pub data Move (consent : Bool) (s t : SessionStatus) : Type 0 where
  along : Edge consent s t → Move consent s t
  stay : s ≡ t → is_terminal s ≡ false → Move consent s t

ruleset edges = (
  begin, resume, pause, process, reprocess, distilled, distil_failed, review, approve, publish,
  republish, publish_done, publish_fail, retract, retract_done, cancel_idle, cancel_capturing,
  cancel_paused,
)

can_transition-Edge :
    (c t : SessionStatus) (g : Bool) → (can_transition c t g).0 ≡ true → c ≢ t → Edge g c t
unfolding can_transition
can_transition-Edge c t g h ne = grind (arith, edges)

can_transition-stay :
    (c : SessionStatus) (g : Bool) → (can_transition c c g).0 ≡ not (is_terminal c)
unfolding can_transition
can_transition-stay c g = ground arith

Edge-can_transition :
    {c t : SessionStatus} (g : Bool) → Edge g c t → (can_transition c t g).0 ≡ true
unfolding can_transition
Edge-can_transition g (begin e) = ground arith
Edge-can_transition g (resume e) = ground arith
Edge-can_transition g _ = ground arith

-- can_transition answers true exactly on the moves of the diagram: along an edge, where entering
-- capturing wants consent, or from a status that is not terminal to itself.
pub can_transition-Move :
    (c t : SessionStatus) (g : Bool) → ((can_transition c t g).0 ≡ true) ↔ Move g c t
can_transition-Move c t g = (to, from)
  where
    to : (can_transition c t g).0 ≡ true → Move g c t
    to h = elim (Bool-cases (c == t)) [
      | inl e ↦
          stay ((session_status_eq.same_iff c t).0 e)
            (ground (arith, can_transition-stay c g, session_status_eq.same_iff c t))
      | inr e ↦
          along (can_transition-Edge c t g h (λ p. ground (arith, session_status_eq.same_iff c t)))
    ]

    from : Move g c t → (can_transition c t g).0 ≡ true
    from (along e) = Edge-can_transition g e
    from (stay e n) = rw (← e) (ground (arith, can_transition-stay c g))

-- A sequence of moves, each under whatever consent there was, that never enters `avoid`.
pub data Run (avoid : SessionStatus) (s : SessionStatus) : SessionStatus → Type 0 where
  here : Run avoid s s
  then : {t u : SessionStatus} {g : Bool} → Run avoid s t → Move g t u → u ≢ avoid → Run avoid s u

-- How far a session has come.
abbrev stage : SessionStatus → ℕ
stage SessionStatus.idle = 0
stage SessionStatus.capturing = 0
stage SessionStatus.paused = 0
stage SessionStatus.processing = 1
stage SessionStatus.processing_failed = 1
stage SessionStatus.needs_review = 2
stage SessionStatus.reviewing = 3
stage SessionStatus.approved = 4
stage SessionStatus.publishing = 5
stage SessionStatus.publish_failed = 5
stage SessionStatus.published = 6
stage SessionStatus.retracting = 7
stage SessionStatus.retracted = 8
stage SessionStatus.cancelled = 9

stage-Move : {g : Bool} {s t : SessionStatus} → Move g s t → stage s ≤ stage t
stage-Move (along e) = stage_edge e
  where
    stage_edge : {g : Bool} {s t : SessionStatus} → Edge g s t → stage s ≤ stage t
    stage_edge (begin e) = omega arith
    stage_edge _ = omega arith
stage-Move (stay e n) = rw e (omega arith)

-- The stations between a recording and its publication.
abbrev pub is_station : SessionStatus → Bool
is_station SessionStatus.processing = true
is_station SessionStatus.needs_review = true
is_station SessionStatus.reviewing = true
is_station SessionStatus.approved = true
is_station SessionStatus.publishing = true
is_station _ = false

abbrev Ahead : SessionStatus → SessionStatus → Type 0
Ahead a t = (stage t < stage a) ⊎ (t ≡ SessionStatus.cancelled)
