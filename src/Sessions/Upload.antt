-- ===== src/Sessions/Upload.antt =====
-- upload_audio and _get_audio_format of backend/app/sessions/router.py.
use Prim.Native.Char.{code}
use ai_badge.Prelude.{
  if◌then◌else◌, ◌⊕◌, decimal, ◌==◌, nat_eq, string_eq, length, ℕ, String, ◌≡◌, refl, true, not,
  ◌&&◌, Option, none, some, List, [], ◌∷◌, arith, Bool-cases, inl, inr, All,
}
use ai_badge.Model.{
  session_status_eq, job_status_eq, artifact_status_eq, opt_eq, key_eq, Session, Action, uuid4,
  write_session, ◌>>=◌, ◌>>◌,
}
use ai_badge.Storage.{save}
use ai_badge.Sessions.Machine.{in_set}
use ai_badge.Sessions.Schemas.{SessionResponse}
use ai_badge.Sessions.Router.{get_session_or_404, reply}

-- `filename.rsplit(".", 1)[-1]`: what is behind the last dot, or all of it.
unfoldable pub behind_last_dot : String → String → String
behind_last_dot current String.[] = current
behind_last_dot current (String.◌∷◌ c s) =
    let from_here = behind_last_dot s s in
    let as_before = behind_last_dot current s in if code c == b'.' then from_here else as_before

abbrev pub extensions : List String
extensions = "opus" ∷ "wav" ∷ "mp3" ∷ "m4a" ∷ "ogg" ∷ "webm" ∷ []

abbrev pub mapping : List (String × String)
mapping =
    ("audio/opus", "opus")
    ∷ ("audio/wav", "wav")
    ∷ ("audio/mpeg", "mp3")
    ∷ ("audio/mp4", "m4a")
    ∷ ("audio/ogg", "ogg")
    ∷ ("audio/webm", "webm")
    ∷ []

-- `mapping.get(content_type, "opus")`
abbrev pub get_or_opus : String → List (String × String) → String
get_or_opus t [] = "opus"
get_or_opus t ((k, format) ∷ rest) =
    let later = get_or_opus t rest in if t == k then format else later

abbrev pub by_content_type : Option String → String
by_content_type none = "opus"
by_content_type (some t) = if t == "" then "opus" else get_or_opus t mapping

module _ (lower : String → String) where
  abbrev extension : String → String
  extension name = lower (behind_last_dot name name)

  unfoldable pub get_audio_format : Option String → Option String → String
  unfolding behind_last_dot
  get_audio_format none content_type = by_content_type content_type
  get_audio_format (some name) content_type =
      if not (name == "") && in_set (extension name) extensions
      then extension name
      else by_content_type content_type

  abbrev pub with_audio : String → String → ℕ → Session → Session
  with_audio key format size s = record s {
    audio_key = some key;
    audio_format = some format;
    audio_size_bytes = some size;
  }

  -- The body behind the lookup. A fresh identifier names the file.
  unfoldable pub attach_audio :
      String → Option String → Option String → List ℕ → Session → Action Unit
  unfolding get_audio_format save
  attach_audio base filename content_type content s = do
    name ← uuid4
    let format = get_audio_format filename content_type
    let key = decimal name ⊕ "." ⊕ format
    save base key content
    write_session s.id (with_audio key format (length content))

  unfoldable pub upload_audio :
      String → Option ℕ → Option String → Option String → List ℕ → ℕ → Action SessionResponse
  unfolding get_session_or_404 attach_audio reply
  upload_audio base session_id filename content_type content user_id = do
    s ← get_session_or_404 session_id user_id
    attach_audio base filename content_type content s
    reply s.id

  get_or_opus-known :
      (t : String) (m : List (String × String))
      → All (λ e. in_set e.1 extensions ≡ true) m
      → in_set (get_or_opus t m) extensions ≡ true
  get_or_opus-known t [] h = refl
  get_or_opus-known t ((k, format) ∷ rest) h = elim (Bool-cases (t == k)) [
    | inl e ↦ rw e h.0
    | inr e ↦ rw e (get_or_opus-known t rest h.1)
  ]

  by_content_type-known : (t : Option String) → in_set (by_content_type t) extensions ≡ true
  by_content_type-known none = refl
  by_content_type-known (some t) = elim (Bool-cases (t == "")) [
    | inl e ↦ rw e refl
    | inr e ↦ rw e (get_or_opus-known t mapping (refl, (refl, (refl, (refl, (refl, (refl, tt)))))))
  ]

  -- The format of an upload is always one of the six, whatever the client sends.
  pub get_audio_format-known :
      (filename content_type : Option String)
      → in_set (get_audio_format filename content_type) extensions ≡ true
  unfolding get_audio_format
  get_audio_format-known none t = by_content_type-known t
  get_audio_format-known (some name) t =
      elim (Bool-cases (not (name == "") && in_set (extension name) extensions)) [
        | inl e ↦ rw e (ground arith)
        | inr e ↦ rw e (by_content_type-known t)
      ]
