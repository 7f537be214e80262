-- ===== src/Audit.antt =====
-- backend/app/audit/service.py: the INSERT-only audit trail.
pub mod Listing
use ai_badge.Prelude.{ℕ, String, Option, none, some}
use ai_badge.Model.{AuditLog, Action, add_audit_log}
use ai_badge.Model.Json.{Fields}

-- The keyword arguments of audit_write.
pub record AuditEntry : Type 0 where
  pub action : String
  pub resource_type : String
  pub resource_id : Option ℕ
  pub user_id : Option ℕ
  pub session_id : Option ℕ
  pub artifact_id : Option ℕ
  pub details : Option Fields
  pub ip_address : Option String

unfoldable pub audit_write : AuditEntry → Action AuditLog
audit_write e = add_audit_log λ id now. record {
  id = id;
  user_id = e.user_id;
  action = e.action;
  resource_type = e.resource_type;
  resource_id = e.resource_id;
  session_id = e.session_id;
  artifact_id = e.artifact_id;
  details = e.details;
  ip_address = e.ip_address;
  created_at = now;
}

-- An entry about a session, made by one of its user's requests.
abbrev pub session_entry : String → ℕ → ℕ → AuditEntry
session_entry action sid uid = record {
  action = action;
  resource_type = "session";
  resource_id = some sid;
  user_id = some uid;
  session_id = some sid;
  artifact_id = none;
  details = none;
  ip_address = none;
}
