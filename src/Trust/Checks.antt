-- ===== src/Trust/Checks.antt =====
-- The policy checks and the warnings of backend/app/trust, against what they are meant to let
-- through.
use ai_badge.Prelude.{
  Bool-cases, select, All, ℕ, String, ◌≡◌, refl, ◌≢◌, ◌↔◌, inl, inr, true, Option, none, some, List,
  [], ◌∷◌, arith,
}
use ai_badge.Model.{artifact_status_eq, ArtifactStatus, Session, Artifact, ◌>>=◌, World, ok}
use ai_badge.Trust.Redlines.{
  is_empty, redline_consent_required, redline_no_capture_without_device,
  redline_audio_required_for_processing, is_unapproved, redline_all_artifacts_approved_for_publish,
  redline_sensitive_content_check, redline_large_transcript, redline_no_participants_detected,
  redline_short_duration, redline_duplicate_session_title, RedlineResult,
}
use ai_badge.Trust.Policy.{check_capture, check_publish}

-- The five warnings on a session's transcript, participants, duration and title.
abbrev pub warnings :
    (String → String)
    → (ℕ → String)
    → String
    → List String
    → Option ℕ
    → Option String
    → List RedlineResult
warnings lower seconds transcript participants duration title =
    redline_sensitive_content_check lower transcript
    ∷ redline_large_transcript transcript
    ∷ redline_no_participants_detected participants
    ∷ redline_short_duration seconds duration
    ∷ redline_duplicate_session_title title
    ∷ []

short_duration-passes :
    (seconds : ℕ → String) (d : Option ℕ)
    → ((redline_short_duration seconds d).passed ≡ true)
      × ((redline_short_duration seconds d).level ≡ "L2")
unfolding redline_short_duration
short_duration-passes seconds none = (refl, refl)
short_duration-passes seconds (some ms) = (ground arith, ground arith)

-- Whatever the transcript, the participants, the duration and the title are, every warning passes and
-- has the level L2.
pub warnings-pass :
    (lower : String → String) (seconds : ℕ → String) (transcript : String)
    (participants : List String) (duration : Option ℕ) (title : Option String)
    → All
        (λ r. (r.passed ≡ true) × (r.level ≡ "L2"))
        (warnings lower seconds transcript participants duration title)
unfolding redline_sensitive_content_check redline_large_transcript redline_no_participants_detected
    redline_duplicate_session_title
warnings-pass lower seconds transcript participants duration title = (
  (ground arith, ground arith),
  (
    (ground arith, ground arith),
    (
      (ground arith, ground arith),
      (short_duration-passes seconds duration, ((ground arith, ground arith), tt)),
    ),
  ),
)

none_unapproved :
    (artifacts : List Artifact)
    → (is_empty (select is_unapproved artifacts) ≡ true)
      ↔ All (λ a. a.status ≡ ArtifactStatus.approved) artifacts
none_unapproved artifacts = (to artifacts, from artifacts)
  where
    to :
        (xs : List Artifact)
        → is_empty (select is_unapproved xs) ≡ true
        → All (λ a. a.status ≡ ArtifactStatus.approved) xs
    to [] h = tt
    to (x ∷ xs) h = elim (Bool-cases (is_unapproved x)) [
      | inl e ↦ absurd (ground arith)
      | inr e ↦ (
        ground (arith, artifact_status_eq.same_iff x.status ArtifactStatus.approved),
        to xs (ground arith),
      )
    ]

    from :
        (xs : List Artifact)
        → All (λ a. a.status ≡ ArtifactStatus.approved) xs
        → is_empty (select is_unapproved xs) ≡ true
    from [] h = refl
    from (x ∷ xs) h =
        ground
          (arith, from xs h.1, h.0, artifact_status_eq.same_iff x.status ArtifactStatus.approved)

-- The check before a publication passes exactly where every artifact is approved and the session has
-- audio, and it changes nothing.
pub check_publish-passes :
    (artifacts : List Artifact) (s : Session) (w : World)
    → (check_publish artifacts s w ≡ (ok tt, w))
      ↔ (All (λ a. a.status ≡ ArtifactStatus.approved) artifacts × (s.audio_key ≢ none))
unfolding check_publish redline_all_artifacts_approved_for_publish
    redline_audio_required_for_processing ◌>>=◌
check_publish-passes artifacts s w = (
  λ h. ((none_unapproved artifacts).0 (ground arith), ground arith),
  λ h. let all = (none_unapproved artifacts).1 h.0 in ground (arith, all, h.1),
)

-- The check before a capture passes exactly where consent is granted and a device is assigned.
pub check_capture-passes :
    (s : Session) (w : World)
    → (check_capture s w ≡ (ok tt, w)) ↔ ((s.consent_granted ≡ true) × (s.device_id ≢ none))
unfolding check_capture redline_consent_required redline_no_capture_without_device ◌>>=◌
check_capture-passes s w = (λ h. (ground arith, ground arith), λ h. ground arith)
