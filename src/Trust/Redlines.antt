-- ===== src/Trust/Redlines.antt =====
-- backend/app/trust/redlines.py: five hard constraints (L1) and the warnings (L2).
use ai_badge.Prelude.{
  ltb, if◌then◌else◌, ◌⊕◌, decimal, ◌==◌, nat_eq, string_eq, length, select, ℕ, String, Bool, true,
  false, not, Option, none, some, List, [], ◌∷◌,
}
use ai_badge.Model.{
  session_status_eq, job_status_eq, artifact_status_eq, session_value, SessionStatus,
  ArtifactStatus, key_eq, Session, Artifact, opt_eq,
}
use Prim.Native.String
use text.Mathlib.Text.{find?}

pub record RedlineResult : Type 0 where
  pub passed : Bool
  pub reason : String
  pub level : String

abbrev result : Bool → String → String → RedlineResult
result passed reason level = record { passed = passed; reason = reason; level = level }

abbrev pub is_none {ℓ} : {A : Type ℓ} → Option A → Bool
is_none none = true
is_none (some _) = false

abbrev pub is_empty {ℓ} : {A : Type ℓ} → List A → Bool
is_empty [] = true
is_empty (_ ∷ _) = false

unfoldable pub redline_consent_required : Session → RedlineResult
redline_consent_required s =
    if not s.consent_granted then result false "Consent not granted" "L1" else result true "" "L1"

unfoldable pub redline_no_capture_without_device : Session → RedlineResult
redline_no_capture_without_device s =
    if is_none s.device_id
    then result false "No device assigned to session" "L1"
    else result true "" "L1"

unfoldable pub redline_audio_required_for_processing : Session → RedlineResult
redline_audio_required_for_processing s =
    if is_none s.audio_key then result false "No audio file uploaded" "L1" else result true "" "L1"

abbrev pub is_unapproved : Artifact → Bool
is_unapproved a = not (a.status == ArtifactStatus.approved)

unfoldable pub redline_all_artifacts_approved_for_publish : List Artifact → RedlineResult
redline_all_artifacts_approved_for_publish artifacts =
    let unapproved = select is_unapproved artifacts in
    if not (is_empty unapproved)
    then result false (decimal (length unapproved) ⊕ " artifact(s) not yet approved") "L1"
    else result true "" "L1"

unfoldable pub redline_published_before_retract : Session → RedlineResult
redline_published_before_retract s =
    if not (s.status == SessionStatus.published)
    then result false ("Session status is '" ⊕ session_value s.status ⊕ "', not 'published'") "L1"
    else result true "" "L1"

-- `", ".join(found)`
abbrev join : List String → String
join [] = ""
join (x ∷ []) = x
join (x ∷ y ∷ rest) = x ⊕ ", " ⊕ join (y ∷ rest)

abbrev sensitive_keywords : List String
sensitive_keywords = "password" ∷ "secret" ∷ "token" ∷ "private key" ∷ "身份证" ∷ "银行卡" ∷ "密码" ∷ []

-- `str.lower` follows the Unicode tables: it is a parameter.
unfoldable pub redline_sensitive_content_check : (String → String) → String → RedlineResult
redline_sensitive_content_check lower transcript =
    let found =
      select (λ kw. not (is_none (find? (lower transcript) (lower kw)))) sensitive_keywords in
    if not (is_empty found)
    then result true ("Potential sensitive content detected: " ⊕ join found) "L2"
    else result true "" "L2"

unfoldable pub redline_large_transcript : String → RedlineResult
redline_large_transcript transcript =
    if ltb 100000 (String.count transcript)
    then result true
        ("Large transcript (" ⊕ decimal (String.count transcript) ⊕ " chars), may impact quality")
        "L2"
    else result true "" "L2"

unfoldable pub redline_no_participants_detected : List String → RedlineResult
redline_no_participants_detected participants =
    if is_empty participants
    then result true "No participants detected in transcript" "L2"
    else result true "" "L2"

-- The duration in milliseconds; its printing with one decimal is a parameter.
unfoldable pub redline_short_duration : (ℕ → String) → Option ℕ → RedlineResult
redline_short_duration seconds none = result true "" "L2"
redline_short_duration seconds (some ms) =
    if ltb ms 5000
    then result true ("Very short recording (" ⊕ seconds ms ⊕ "s)") "L2"
    else result true "" "L2"

abbrev has_title : Option String → Bool
has_title none = false
has_title (some t) = not (t == "")

unfoldable pub redline_duplicate_session_title : Option String → RedlineResult
redline_duplicate_session_title title =
    if not (has_title title) then result true "Session has no title" "L2" else result true "" "L2"
