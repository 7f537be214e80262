-- ===== src/Sessions/Schemas.antt =====
-- backend/app/sessions/schemas.py and _to_response of backend/app/sessions/router.py.
use ai_badge.Prelude.{ℕ, String, Bool, Option, List}
use ai_badge.Model.{session_value, Session}
use ai_badge.Model.Json.{Fields}

pub record SessionCreateRequest : Type 0 where
  pub title : Option String
  -- The outcome of `uuid.UUID(body.device_id)`, where the text is there and not empty.
  pub device_id : Option (Option ℕ)

-- The tombstone columns are not shown.
pub record SessionResponse : Type 0 where
  pub id : ℕ
  pub user_id : ℕ
  pub device_id : Option ℕ
  pub title : Option String
  pub status : String
  pub consent_granted : Bool
  pub audio_key : Option String
  pub audio_format : Option String
  pub audio_size_bytes : Option ℕ
  pub duration_seconds : Option ℕ
  pub metadata_json : Option Fields
  pub started_at : ℕ
  pub ended_at : Option ℕ
  pub created_at : ℕ
  pub updated_at : ℕ

pub record SessionListResponse : Type 0 where
  pub sessions : List SessionResponse
  pub total : ℕ

unfoldable pub to_response : Session → SessionResponse
to_response s = record {
  id = s.id;
  user_id = s.user_id;
  device_id = s.device_id;
  title = s.title;
  status = session_value s.status;
  consent_granted = s.consent_granted;
  audio_key = s.audio_key;
  audio_format = s.audio_format;
  audio_size_bytes = s.audio_size_bytes;
  duration_seconds = s.duration_seconds;
  metadata_json = s.metadata_json;
  started_at = s.started_at;
  ended_at = s.ended_at;
  created_at = s.created_at;
  updated_at = s.updated_at;
}
