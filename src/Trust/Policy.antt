-- ===== src/Trust/Policy.antt =====
-- backend/app/trust/policy_engine.py: a failed redline becomes a PolicyViolation.
use ai_badge.Prelude.{not, List}
use ai_badge.Model.{Session, Artifact, Action, raise_if, policy_violation, ◌>>◌}
use ai_badge.Trust.Redlines.{
  redline_consent_required, redline_no_capture_without_device,
  redline_audio_required_for_processing, redline_all_artifacts_approved_for_publish,
  redline_published_before_retract, RedlineResult,
}

-- `if not result.passed: raise PolicyViolation(result.reason, result.level)`
abbrev pub enforce : RedlineResult → Action Unit
enforce r = raise_if (not r.passed) (policy_violation r.reason r.level)

unfoldable pub check_consent : Session → Action Unit
check_consent s = enforce (redline_consent_required s)

unfoldable pub check_capture : Session → Action Unit
unfolding check_consent
check_capture s = do check_consent s; enforce (redline_no_capture_without_device s)

unfoldable pub check_reviewed : List Artifact → Action Unit
check_reviewed artifacts = enforce (redline_all_artifacts_approved_for_publish artifacts)

unfoldable pub check_publish : List Artifact → Session → Action Unit
unfolding check_reviewed
check_publish artifacts s = do
  check_reviewed artifacts
  enforce (redline_audio_required_for_processing s)

unfoldable pub check_retract : Session → Action Unit
check_retract s = enforce (redline_published_before_retract s)
