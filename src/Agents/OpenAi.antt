-- ===== src/Agents/OpenAi.antt =====
-- backend/app/providers/openai_llm.py over the client of the openai package and json.loads, and the
-- provider that the modules keep in `_llm`.
use ai_badge.Prelude.{
  if◌then◌else◌, string_eq, nat_eq, ◌==◌, ℕ, String, Bool, true, Option, none, some, List, [], ◌∷◌,
  ◌++◌,
}
use ai_badge.Model.{
  Result, ok, err, session_status_eq, job_status_eq, artifact_status_eq, opt_eq, key_eq,
}
use ai_badge.Model.Json.{Json, str, obj, end, field}
use ai_badge.Agents.Providers.{Completion, Format}

pub record Message : Type 0 where
  pub role : String
  pub content : String

-- {"type": "json_schema", "json_schema": {"name": ..., "strict": ..., "schema": ...}}
pub record ResponseFormat : Type 0 where
  pub name : String
  pub strict : Bool
  pub schema : Format

-- The arguments of `client.chat.completions.create`.
pub record Chat : Type 0 where
  pub model : String
  pub messages : List Message
  pub temperature : ℕ
  pub max_tokens : ℕ
  pub response_format : Option ResponseFormat

-- What the package and the JSON parser answer: the content of the first choice's message, the
-- chunks of a stream with the contents of their choices, and the value of a text that is JSON.
pub record Client : Type 0 where
  pub create : Chat → Result (Option String)
  pub stream : Chat → Result (List (List (Option String)))
  pub loads : String → Option Json

-- `text or default`
abbrev pub or_text : Option String → String → String
or_text none default = default
or_text (some t) default = if t == "" then default else t

abbrev strictly : Option Format → Option ResponseFormat
strictly none = none
strictly (some f) = some (record { name = "structured_output"; strict = true; schema = f })

abbrev pub chat_of : Completion → Chat
chat_of r = record {
  model = or_text r.model "gpt-4o";
  messages = record { role = "user"; content = r.prompt } ∷ [];
  temperature = r.temperature;
  max_tokens = r.max_tokens;
  response_format = strictly r.schema;
}

abbrev raw_unless : String → Option Json → Json
raw_unless text none = obj (field "raw_text" (str text) end)
raw_unless text (some v) = v

abbrev pub read_answer : (String → Option Json) → Result (Option String) → Result Json
read_answer loads (err e) = err e
read_answer loads (ok content) =
    let text = or_text content "{}" in ok (raw_unless text (loads text))

-- `OpenAILLMProvider.complete`
unfoldable pub complete : Client → Completion → Result Json
complete c r = read_answer c.loads (c.create (chat_of r))

-- `chunk.choices and chunk.choices[0].delta.content`
abbrev piece : List (Option String) → List String
piece [] = []
piece (none ∷ choices) = []
piece (some t ∷ choices) = if t == "" then [] else t ∷ []

abbrev pub pieces : List (List (Option String)) → List String
pieces [] = []
pieces (chunk ∷ chunks) = piece chunk ++ pieces chunks

abbrev streamed : Result (List (List (Option String))) → Result (List String)
streamed (err e) = err e
streamed (ok chunks) = ok (pieces chunks)

-- `OpenAILLMProvider.chat_stream`, as the list of what it yields
unfoldable pub chat_stream : Client → List Message → Option String → ℕ → ℕ → Result (List String)
chat_stream c messages model temperature max_tokens = streamed (
    c.stream (record {
      model = or_text model "gpt-4o";
      messages = messages;
      temperature = temperature;
      max_tokens = max_tokens;
      response_format = none;
    }))

-- The provider that a module keeps: made at the first use, unless one was set.
unfoldable pub get_llm {ℓ} : {A : Type ℓ} → A → Option A → A × Option A
get_llm default none = (default, some default)
get_llm default (some llm) = (llm, some llm)

unfoldable pub set_llm {ℓ} : {A : Type ℓ} → A → Option A → Option A
set_llm llm kept = some llm
