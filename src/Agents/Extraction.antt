-- ===== src/Agents/Extraction.antt =====
-- The end of handle_extract_artifact_job of backend/app/agents/distiller.py, which writes the
-- session's status itself.
use ai_badge.Prelude.{nat_eq, string_eq}
use ai_badge.Model.{session_status_eq, job_status_eq, artifact_status_eq, opt_eq, key_eq}
use ai_badge.Model.Json.{Json}
