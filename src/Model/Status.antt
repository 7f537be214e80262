-- ===== src/Model/Status.antt =====
-- The status columns: SessionStatus of backend/app/sessions/service.py, the job statuses of
-- backend/app/orchestrator/service.py, and the artifact statuses that backend/app/artifacts and
-- backend/app/agents write.
use ai_badge.Prelude.{
  ℕ, String, ◌≡◌, refl, ◌↔◌, Bool, true, Option, some, List, [], ◌∷◌, find, Key, ◌==◌, nat_beq,
  string_eq, arith, nat_eq,
}

pub data SessionStatus : Type 0 where
  idle capturing paused processing processing_failed needs_review reviewing approved : SessionStatus
  publishing publish_failed published retracting retracted cancelled : SessionStatus

pub data JobStatus : Type 0 where
  pending running completed failed : JobStatus

pub data ArtifactStatus : Type 0 where
  draft pending_review approved rejected published : ArtifactStatus

-- The position of a member in its class, by which members are compared.
abbrev pub session_rank : SessionStatus → ℕ
session_rank SessionStatus.idle = 0
session_rank SessionStatus.capturing = 1
session_rank SessionStatus.paused = 2
session_rank SessionStatus.processing = 3
session_rank SessionStatus.processing_failed = 4
session_rank SessionStatus.needs_review = 5
session_rank SessionStatus.reviewing = 6
session_rank SessionStatus.approved = 7
session_rank SessionStatus.publishing = 8
session_rank SessionStatus.publish_failed = 9
session_rank SessionStatus.published = 10
session_rank SessionStatus.retracting = 11
session_rank SessionStatus.retracted = 12
session_rank SessionStatus.cancelled = 13

abbrev pub job_rank : JobStatus → ℕ
job_rank JobStatus.pending = 0
job_rank JobStatus.running = 1
job_rank JobStatus.completed = 2
job_rank JobStatus.failed = 3

abbrev pub artifact_rank : ArtifactStatus → ℕ
artifact_rank ArtifactStatus.draft = 0
artifact_rank ArtifactStatus.pending_review = 1
artifact_rank ArtifactStatus.approved = 2
artifact_rank ArtifactStatus.rejected = 3
artifact_rank ArtifactStatus.published = 4

abbrev pub session_beq : SessionStatus → SessionStatus → Bool
session_beq a b = nat_beq (session_rank a) (session_rank b)

abbrev pub job_beq : JobStatus → JobStatus → Bool
job_beq a b = nat_beq (job_rank a) (job_rank b)

abbrev pub artifact_beq : ArtifactStatus → ArtifactStatus → Bool
artifact_beq a b = nat_beq (artifact_rank a) (artifact_rank b)

pub session_beq_iff : (a b : SessionStatus) → (session_beq a b ≡ true) ↔ (a ≡ b)
session_beq_iff a b = (λ h. ground arith, λ h. ground arith)

pub job_beq_iff : (a b : JobStatus) → (job_beq a b ≡ true) ↔ (a ≡ b)
job_beq_iff a b = (λ h. ground arith, λ h. ground arith)

pub artifact_beq_iff : (a b : ArtifactStatus) → (artifact_beq a b ≡ true) ↔ (a ≡ b)
artifact_beq_iff a b = (λ h. ground arith, λ h. ground arith)

instance abbrev pub session_status_eq : Key SessionStatus
session_status_eq = record { same = session_beq; same_iff = session_beq_iff }

instance abbrev pub job_status_eq : Key JobStatus
job_status_eq = record { same = job_beq; same_iff = job_beq_iff }

instance abbrev pub artifact_status_eq : Key ArtifactStatus
artifact_status_eq = record { same = artifact_beq; same_iff = artifact_beq_iff }

-- `SessionStatus.X.value`
abbrev pub session_value : SessionStatus → String
session_value SessionStatus.idle = "idle"
session_value SessionStatus.capturing = "capturing"
session_value SessionStatus.paused = "paused"
session_value SessionStatus.processing = "processing"
session_value SessionStatus.processing_failed = "processing_failed"
session_value SessionStatus.needs_review = "needs_review"
session_value SessionStatus.reviewing = "reviewing"
session_value SessionStatus.approved = "approved"
session_value SessionStatus.publishing = "publishing"
session_value SessionStatus.publish_failed = "publish_failed"
session_value SessionStatus.published = "published"
session_value SessionStatus.retracting = "retracting"
session_value SessionStatus.retracted = "retracted"
session_value SessionStatus.cancelled = "cancelled"

abbrev pub job_value : JobStatus → String
job_value JobStatus.pending = "pending"
job_value JobStatus.running = "running"
job_value JobStatus.completed = "completed"
job_value JobStatus.failed = "failed"

abbrev members : List SessionStatus
members =
    SessionStatus.idle ∷ SessionStatus.capturing ∷ SessionStatus.paused ∷ SessionStatus.processing
    ∷ SessionStatus.processing_failed ∷ SessionStatus.needs_review ∷ SessionStatus.reviewing
    ∷ SessionStatus.approved ∷ SessionStatus.publishing ∷ SessionStatus.publish_failed
    ∷ SessionStatus.published ∷ SessionStatus.retracting ∷ SessionStatus.retracted
    ∷ SessionStatus.cancelled ∷ []

-- `SessionStatus(text)`: the member with that value; `none` stands for the ValueError.
unfoldable pub parse_status : String → Option SessionStatus
parse_status text = find (λ s. session_value s == text) members

-- A member's value parses to that member.
pub parse_status-value : (s : SessionStatus) → parse_status (session_value s) ≡ some s
unfolding parse_status
parse_status-value SessionStatus.idle = refl
parse_status-value _ = refl

find_member :
    (text : String) (s : SessionStatus) (l : List SessionStatus)
    → find (λ t. session_value t == text) l ≡ some s
    → session_value s ≡ text
find_member text s [] h = cc
find_member text s (t ∷ l) h =
    ground (arith, find_member text s l, string_eq.same_iff (session_value t) text)

-- A text that parses to a status is that status's own value.
pub value-parse_status :
    (text : String) (s : SessionStatus) → parse_status text ≡ some s → session_value s ≡ text
unfolding parse_status
value-parse_status text s h = find_member text s members h
