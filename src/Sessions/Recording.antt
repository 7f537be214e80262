-- ===== src/Sessions/Recording.antt =====
-- What an upload leaves: the file, and the session that refers to it.

use ai_badge.Prelude.{◌⊕◌, decimal, nat_eq, string_eq, length, ℕ, suc, String, Option, List}
use ai_badge.Model.{
  session_status_eq, job_status_eq, artifact_status_eq, opt_eq, key_eq, Session, World, set_session,
}
use ai_badge.Storage.{save}
use ai_badge.Sessions.Upload.{get_audio_format, with_audio}

-- The key under which an upload is kept.
abbrev pub key_of : ℕ → String → String
key_of name format = decimal name ⊕ "." ⊕ format

module _ (lower : String → String) (base : String) where
  uploaded_world : Option String → Option String → List ℕ → Session → World → World
  uploaded_world filename content_type content s w =
      let format = get_audio_format lower filename content_type in
      let key = key_of w.fresh format in
      let v = (save base key content (record w { fresh = suc w.fresh })).1 in
      let d = set_session s.id (with_audio lower key format (length content)) w.db in
      record v { db = d }
