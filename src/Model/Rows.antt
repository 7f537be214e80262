-- ===== src/Model/Rows.antt =====
-- The ORM classes of backend/app/models, a record for each table. Identifiers (UUIDs) are numbers,
-- times are seconds; a nullable column is an Option.
use ai_badge.Prelude.{
  ◌==◌, nat_eq, string_eq, beq_refl, Key, ℕ, String, ◌≡◌, refl, ◌↔◌, Bool, true, false, ◌&&◌,
  Option, none, some, arith,
}
use ai_badge.Model.Status.{
  SessionStatus, JobStatus, ArtifactStatus, session_status_eq, job_status_eq, artifact_status_eq,
}
use ai_badge.Model.Json.{Json, Fields}

pub record Organization : Type 0 where
  pub id : ℕ
  pub name : String
  pub slug : String
  pub created_at : ℕ

pub record User : Type 0 where
  pub id : ℕ
  pub org_id : ℕ
  pub email : String
  pub password_hash : String
  pub display_name : String
  pub role : String
  pub created_at : ℕ

pub record Device : Type 0 where
  pub id : ℕ
  pub user_id : ℕ
  pub name : String
  pub device_key : String
  pub device_type : String
  pub status : String
  pub created_at : ℕ

-- `duration_seconds` is a float of the source, here in milliseconds.
pub record Session : Type 0 where
  pub id : ℕ
  pub user_id : ℕ
  pub device_id : Option ℕ
  pub title : Option String
  pub status : SessionStatus
  pub consent_granted : Bool
  pub audio_key : Option String
  pub audio_format : Option String
  pub audio_size_bytes : Option ℕ
  pub duration_seconds : Option ℕ
  pub metadata_json : Option Fields
  pub deleted_at : Option ℕ
  pub retracted_by : Option ℕ
  pub retraction_reason : Option String
  pub started_at : ℕ
  pub ended_at : Option ℕ
  pub created_at : ℕ
  pub updated_at : ℕ

-- The unique text that names a job, kept as the parts that its f-string joins.
pub data IdempotencyKey : Type 0 where
  -- f"{session_id}:{job_type}"; a job without a session formats `None`
  pipeline : Option ℕ → String → IdempotencyKey
  -- f"{session_id}:extract_artifact:retry-{hex}"
  retry : ℕ → ℕ → IdempotencyKey
  -- f"{session_id}:publish:{artifact_id}"
  publish : ℕ → ℕ → IdempotencyKey

abbrev pub opt_beq : Option ℕ → Option ℕ → Bool
opt_beq none none = true
opt_beq (some a) (some b) = a == b
opt_beq _ _ = false

pub opt_beq_self : (a : Option ℕ) → opt_beq a a ≡ true
opt_beq_self none = refl
opt_beq_self (some a) = beq_refl a

pub opt_beq-eq : (a b : Option ℕ) → opt_beq a b ≡ true → a ≡ b
opt_beq-eq none none h = refl
opt_beq-eq (some a) (some b) h = ground arith
opt_beq-eq _ _ h = cc

pub opt_beq_iff : (a b : Option ℕ) → (opt_beq a b ≡ true) ↔ (a ≡ b)
opt_beq_iff a b = (opt_beq-eq a b, λ e. rw e (opt_beq_self b))

instance abbrev pub opt_eq : Key (Option ℕ)
opt_eq = record { same = opt_beq; same_iff = opt_beq_iff }

abbrev pub key_beq : IdempotencyKey → IdempotencyKey → Bool
key_beq (IdempotencyKey.pipeline s t) (IdempotencyKey.pipeline s' t') = opt_beq s s' && t == t'
key_beq (IdempotencyKey.retry s h) (IdempotencyKey.retry s' h') = s == s' && h == h'
key_beq (IdempotencyKey.publish s a) (IdempotencyKey.publish s' a') = s == s' && a == a'
key_beq _ _ = false

key_beq_self : (k : IdempotencyKey) → key_beq k k ≡ true
key_beq_self (IdempotencyKey.pipeline s t) = rw (opt_beq_self s, beq_refl t)
key_beq_self (IdempotencyKey.retry s h) = rw (beq_refl s, beq_refl h)
key_beq_self (IdempotencyKey.publish s a) = rw (beq_refl s, beq_refl a)

key_beq-eq : (a b : IdempotencyKey) → key_beq a b ≡ true → a ≡ b
key_beq-eq (IdempotencyKey.pipeline s t) (IdempotencyKey.pipeline s' t') h =
    ground (arith, string_eq.same_iff t t', opt_beq-eq s s')
key_beq-eq (IdempotencyKey.retry s t) (IdempotencyKey.retry s' t') h = ground arith
key_beq-eq (IdempotencyKey.publish s t) (IdempotencyKey.publish s' t') h = ground arith
key_beq-eq _ _ h = cc

key_beq_of_eq : (a b : IdempotencyKey) → a ≡ b → key_beq a b ≡ true
key_beq_of_eq a b h = rw h (key_beq_self b)

pub key_beq_iff : (a b : IdempotencyKey) → (key_beq a b ≡ true) ↔ (a ≡ b)
key_beq_iff a b = (key_beq-eq a b, key_beq_of_eq a b)

instance abbrev pub key_eq : Key IdempotencyKey
key_eq = record { same = key_beq; same_iff = key_beq_iff }

pub record Job : Type 0 where
  pub id : ℕ
  pub idempotency_key : IdempotencyKey
  pub session_id : Option ℕ
  pub job_type : String
  pub status : JobStatus
  pub input_payload : Fields
  pub output_payload : Option Fields
  pub error_message : Option String
  pub priority : ℕ
  pub retry_count : ℕ
  pub max_retries : ℕ
  pub next_run_at : Option ℕ
  pub started_at : Option ℕ
  pub completed_at : Option ℕ
  pub created_at : ℕ

pub record WorkflowEvent : Type 0 where
  pub id : ℕ
  pub job_id : Option ℕ
  pub session_id : Option ℕ
  pub artifact_id : Option ℕ
  pub resource_type : String
  pub resource_id : Option ℕ
  pub event_type : String
  pub event_data : Option String
  pub created_at : ℕ

pub record Artifact : Type 0 where
  pub id : ℕ
  pub session_id : ℕ
  pub job_id : Option ℕ
  pub artifact_type : String
  pub title : Option Json
  pub content : Fields
  pub summary : Option Json
  pub status : ArtifactStatus
  pub assigned_reviewer_id : Option ℕ
  pub review_status : Option String
  pub review_comment : Option String
  pub published_at : Option ℕ
  pub created_at : ℕ
  pub updated_at : ℕ

pub record AuditLog : Type 0 where
  pub id : ℕ
  pub user_id : Option ℕ
  pub action : String
  pub resource_type : String
  pub resource_id : Option ℕ
  pub session_id : Option ℕ
  pub artifact_id : Option ℕ
  pub details : Option Fields
  pub ip_address : Option String
  pub created_at : ℕ

pub record DeletionJob : Type 0 where
  pub id : ℕ
  pub artifact_id : Option ℕ
  pub session_id : Option ℕ
  pub resource_type : String
  pub resource_id : ℕ
  pub status : JobStatus
  pub cascade_targets : Option Fields
  pub error_message : Option String
  pub retry_count : ℕ
  pub max_retries : ℕ
  pub next_run_at : Option ℕ
  pub completed_at : Option ℕ
  pub created_at : ℕ
