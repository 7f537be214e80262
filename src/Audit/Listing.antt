-- ===== src/Audit/Listing.antt =====
-- backend/app/audit/router.py: the read-only list of audit entries. The filter is the outcome of
-- reading the query parameter `session_id`: none where it is missing or empty. Any user sees all
-- entries; an AuditLogResponse is the row with its identifiers and time printed.
use ai_badge.Prelude.{
  ltb, ◌==◌, nat_eq, string_eq, length, select, take, drop, order_by, ℕ, Bool, true, Option, none,
  some, List,
}
use ai_badge.Model.{
  session_status_eq, job_status_eq, artifact_status_eq, opt_eq, key_eq, AuditLog, Action, pure,
  gets, ◌>>=◌,
}

pub record AuditLogListResponse : Type 0 where
  pub logs : List AuditLog
  pub total : ℕ

-- `where(AuditLog.session_id == session_id)`, if there is a filter.
abbrev pub passes : Option ℕ → AuditLog → Bool
passes none l = true
passes (some sid) l = l.session_id == some sid

abbrev pub newer : AuditLog → AuditLog → Bool
newer a b = ltb b.created_at a.created_at

unfoldable pub list_audit_logs : Option ℕ → ℕ → ℕ → Action AuditLogListResponse
list_audit_logs filter limit offset = do
  rows ← gets (λ w. select (passes filter) w.audit_logs)
  pure (record { logs = take limit (drop offset (order_by newer rows)); total = length rows })
