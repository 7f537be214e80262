-- ===== src/Agents/Answers.antt =====
-- What the schemas that backend/app/agents/distiller.py sends with its prompts promise to the code
-- that reads the answers.
use ai_badge.Prelude.{ℕ, String, ◌≡◌, refl, sym, subst, true, Option, none, some, [], ◌∷◌, arith}
use ai_badge.Model.Inversion.{bind-ok}
use ai_badge.Model.{Job, Action, pure, or_raise, continue, ◌>>=◌, World, Result, ok, store}
use ai_badge.Model.Json.{get, get_or, Json, null, bool, num, str, uuid, arr, obj, Fields}
use ai_badge.Model.JsonSchema.{is_one_of, present, text_among, conforms}
use ai_badge.Agents.Providers.{Providers}
use ai_badge.Agents.Prompts.{artifact_types, summarize_schema, extract}
use ai_badge.Agents.Capture.{lift}
use ai_badge.Agents.Distiller.{
  completed_jobs, get_transcript, get_summarize_result, schema_type, store_artifact,
  handle_extract_artifact_job,
}

get_or-some :
    (key : String) (default : Json) (f : Fields) (v : Json)
    → get key f ≡ some v
    → get_or key default f ≡ v
get_or-some key default f v h = rw (h, get_or) refl

known_of_among :
    (o : Option Json)
    → present (text_among artifact_types) o ≡ true
    → (kind : String) × (o ≡ some (str kind)) × (is_one_of artifact_types kind ≡ true)
known_of_among none h = cc
known_of_among (some null) h = cc
known_of_among (some (bool b)) h = cc
known_of_among (some (num t)) h = cc
known_of_among (some (str t)) h = (t, refl, h)
known_of_among (some (uuid n)) h = cc
known_of_among (some (arr xs)) h = cc
known_of_among (some (obj fs)) h = cc

known-schema :
    (kind : String) → is_one_of artifact_types kind ≡ true → schema_type (str kind) ≡ some kind
known-schema kind h = ground arith

type_of_known :
    (f : Fields)
    → (kind : String) × (get "artifact_type" f ≡ some (str kind))
      × (is_one_of artifact_types kind ≡ true)
    → (kind : String) × (schema_type (get_or "artifact_type" (str "meeting_minutes") f) ≡ some kind)
      × (is_one_of artifact_types kind ≡ true)
type_of_known f (kind, got, known) =
    let read = get_or-some "artifact_type" (str "meeting_minutes") f (str kind) got in
    (kind, subst (λ v. schema_type v ≡ some kind) (sym read) (known-schema kind known), known)

conforms-type :
    (f : Fields)
    → conforms summarize_schema (obj f) ≡ true
    → present (text_among artifact_types) (get "artifact_type" f) ≡ true
conforms-type f h = ground arith

-- An answer that conforms to SUMMARIZE_SCHEMA names a type that ARTIFACT_SCHEMAS has.
pub summary-schema_type :
    (f : Fields)
    → conforms summarize_schema (obj f) ≡ true
    → (kind : String) × (schema_type (get_or "artifact_type" (str "meeting_minutes") f) ≡ some kind)
      × (is_one_of artifact_types kind ≡ true)
summary-schema_type f h =
    type_of_known f (known_of_among (get "artifact_type" f) (conforms-type f h))

get_transcript-ok :
    (j first : Job) (output : Fields) (w : World)
    → completed_jobs j.session_id "transcribe" w ≡ first ∷ []
    → first.output_payload ≡ some output
    → get_transcript j w ≡ (ok (get_or "transcript" (str "") output), w)
unfolding get_transcript store
get_transcript-ok j first output w found out = rw (found, out) refl

get_summarize_result-ok :
    (sid : Option ℕ) (second : Job) (f : Fields) (w : World)
    → completed_jobs sid "summarize" w ≡ second ∷ []
    → second.output_payload ≡ some f
    → get_summarize_result sid w ≡ (ok f, w)
unfolding get_summarize_result store
get_summarize_result-ok sid second f w found out = rw (found, out) refl

lift-bind :
    {A B : Type 0} (r : Result A) (next : A → Action B) (w : World)
    → (lift r >>= next) w ≡ continue r next w
unfolding ◌>>=◌ lift
lift-bind r next w = refl

-- An extraction job whose session has one completed transcription and one completed summary, the
-- summary conforming to SUMMARIZE_SCHEMA: it asks the model for an artifact of one of the four
-- types, raises what the model raises and else ends in storing the artifact; it never stops at an
-- unknown type.
pub handle_extract_artifact_job-typed :
    (p : Providers) (j first second : Job) (output f : Fields) (w : World)
    → completed_jobs j.session_id "transcribe" w ≡ first ∷ []
    → first.output_payload ≡ some output
    → completed_jobs j.session_id "summarize" w ≡ second ∷ []
    → second.output_payload ≡ some f
    → conforms summarize_schema (obj f) ≡ true
    → (kind : String) × (is_one_of artifact_types kind ≡ true)
      × (handle_extract_artifact_job p j w
          ≡ continue
              (extract p
                (get_or "transcript" (str "") output)
                kind
                (get_or "title" (str "Untitled") f))
              (λ content.
                store_artifact j kind
                  (get_or "title" (str "Untitled") f)
                  content
                  (get_or "summary" (str "") f))
              w)
unfolding handle_extract_artifact_job or_raise pure
handle_extract_artifact_job-typed p j first second output f w heard heard_out summed summed_out
      typed =
    let (kind, known, among) = summary-schema_type f typed in
    (
      kind,
      among,
      bind-ok _ _ w w _ _ (get_transcript-ok j first output w heard heard_out) (
          bind-ok _ _ w w _ _ (get_summarize_result-ok j.session_id second f w summed summed_out)
            (bind-ok _ _ w w kind _ (rw known refl) (lift-bind _ _ w))),
    )
