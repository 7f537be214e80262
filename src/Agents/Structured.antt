-- ===== src/Agents/Structured.antt =====
-- What backend/app/providers/openai_llm.py answers where the service keeps to the schema that it is
-- sent, and what backend/app/agents/distiller.py then reads.
use ai_badge.Prelude.{
  Bool-cases, string_eq, nat_eq, ◌==◌, String, ◌≡◌, refl, ◌⊎◌, inl, inr, true, false, Option, none,
  some, arith,
}
use ai_badge.Model.{
  Result, ok, err, session_status_eq, job_status_eq, artifact_status_eq, opt_eq, key_eq,
}
use ai_badge.Model.Json.{Json, obj, end, get_or, null, bool, num, str, uuid, arr, Fields}
use ai_badge.Model.JsonSchema.{conforms, Schema, is_one_of, object_of, Properties}
use ai_badge.Agents.Providers.{Completion, written, completion}
use ai_badge.Agents.OpenAi.{chat_of, read_answer, complete, ResponseFormat, Chat, Client}
use ai_badge.Agents.Prompts.{
  summarize_prompt, artifact_types, summarize_properties, summarize_schema,
}
use ai_badge.Agents.Distiller.{schema_type}
use ai_badge.Agents.Answers.{summary-schema_type}

-- Structured outputs as the service documents them: where a strict schema is sent and the message
-- has a content, that is JSON that conforms. And the parser reads `{}`.
pub record IsStrict (c : Client) : Type 0 where
  pub honours :
      (call : Chat) (f : ResponseFormat) (s : Schema) (text : String)
      → call.response_format ≡ some f
      → f.strict ≡ true
      → f.schema ≡ written s
      → c.create call ≡ ok (some text)
      → (text == "") ≡ false
      → (v : Json) × (c.loads text ≡ some v) × (conforms s v ≡ true)
  pub empty : c.loads "{}" ≡ some (obj end)

module _ (c : Client) (strict : IsStrict c) where
  read-conforms :
      (call : Chat) (f : ResponseFormat) (s : Schema) (answer : Result (Option String)) (v : Json)
      → call.response_format ≡ some f
      → f.strict ≡ true
      → f.schema ≡ written s
      → c.create call ≡ answer
      → read_answer c.loads answer ≡ ok v
      → (conforms s v ≡ true) ⊎ (v ≡ obj end)
  read-conforms call f s (err e) v sent on schema answered h = cc
  read-conforms call f s (ok none) v sent on schema answered h = inr (ground (arith, strict.empty))
  read-conforms call f s (ok (some text)) v sent on schema answered h =
      elim (Bool-cases (text == "")) [
        | inl e ↦ inr (ground (arith, strict.empty))
        | inr e ↦
            let (u, parsed, typed) = strict.honours call f s text sent on schema answered e in
            inl (ground arith)
      ]

  -- complete
  pub complete-conforms :
      (r : Completion) (s : Schema) (v : Json)
      → r.schema ≡ some (written s)
      → complete c r ≡ ok v
      → (conforms s v ≡ true) ⊎ (v ≡ obj end)
  unfolding complete
  complete-conforms r s v sent h =
      read-conforms (chat_of r)
        (record { name = "structured_output"; strict = true; schema = written s }) s _ v
        (rw sent refl) refl refl refl h

pub is_dict :
    (ps : Properties) (v : Json)
    → (conforms (object_of ps) v ≡ true) ⊎ (v ≡ obj end)
    → (f : Fields) × (v ≡ obj f) × ((conforms (object_of ps) (obj f) ≡ true) ⊎ (f ≡ end))
is_dict ps (obj f) (inl h) = (f, refl, inl h)
is_dict ps null (inl h) = cc
is_dict ps (bool b) (inl h) = cc
is_dict ps (num t) (inl h) = cc
is_dict ps (str t) (inl h) = cc
is_dict ps (uuid n) (inl h) = cc
is_dict ps (arr xs) (inl h) = cc
is_dict ps v (inr h) = (end, h, inr refl)

type_of_answer :
    (f : Fields)
    → (conforms summarize_schema (obj f) ≡ true) ⊎ (f ≡ end)
    → (kind : String) × (schema_type (get_or "artifact_type" (str "meeting_minutes") f) ≡ some kind)
      × (is_one_of artifact_types kind ≡ true)
type_of_answer f (inl h) = summary-schema_type f h
type_of_answer f (inr e) = ("meeting_minutes", rw e refl, refl)

answered_type :
    (v : Json)
    → (f : Fields) × (v ≡ obj f) × ((conforms summarize_schema (obj f) ≡ true) ⊎ (f ≡ end))
    → (f : Fields) × (v ≡ obj f)
      × (kind : String) × (schema_type (get_or "artifact_type" (str "meeting_minutes") f)
          ≡ some kind)
      × (is_one_of artifact_types kind ≡ true)
answered_type v (f, dict, h) =
    let (kind, known, among) = type_of_answer f h in (f, dict, kind, known, among)

-- Over a service that keeps to strict schemas, the summary of any transcript that the OpenAI
-- provider answers, if it answers one, is a dict, and the type of artifact that the extraction
-- reads from it is one of the four that ARTIFACT_SCHEMAS has; also where the message is empty.
pub complete-summary_type :
    (c : Client) (transcript : String) (v : Json)
    → IsStrict c
    → complete c (completion (summarize_prompt transcript) (written summarize_schema)) ≡ ok v
    → (f : Fields) × (v ≡ obj f)
      × (kind : String) × (schema_type (get_or "artifact_type" (str "meeting_minutes") f)
          ≡ some kind)
      × (is_one_of artifact_types kind ≡ true)
complete-summary_type c transcript v strict h = answered_type v (
    is_dict summarize_properties v (
      complete-conforms c strict
        (completion (summarize_prompt transcript) (written summarize_schema)) summarize_schema v
        refl h))
