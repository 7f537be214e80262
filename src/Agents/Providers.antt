-- ===== src/Agents/Providers.antt =====
-- backend/app/providers/base.py: the interfaces of the transcription service and of the language
-- model. A provider may raise.
use ai_badge.Prelude.{String, Option, some, none, ℕ, decimal, true, false}
use ai_badge.Model.{Result}
use ai_badge.Model.Json.{Json, null, bool, num, str, uuid, Items, Fields}
use ai_badge.Model.JsonSchema.{Schema}

pub record TranscriptResult : Type 0 where
  pub transcript : String
  pub segments : Items
  pub language : String

-- The schema of an answer: one that is written in the code, or `model_json_schema()` of the class
-- that ARTIFACT_SCHEMAS has for a type.
pub data Format : Type 0 where
  written : Schema → Format
  of_class : String → Format

-- The arguments of `complete`. The temperature is in tenths.
pub record Completion : Type 0 where
  pub prompt : String
  pub schema : Option Format
  pub model : Option String
  pub temperature : ℕ
  pub max_tokens : ℕ

-- `complete(prompt, schema=...)`, with the defaults of the other arguments
abbrev pub completion : String → Format → Completion
completion prompt schema = record {
  prompt = prompt;
  schema = some schema;
  model = none;
  temperature = 7;
  max_tokens = 4096;
}

pub record Providers : Type 0 where
  -- `transcribe(audio_path)`
  pub transcribe : String → Result TranscriptResult
  -- `complete(...)`, a dict by its annotation
  pub complete : Completion → Result Fields
  -- `str` of a list or a dict
  pub repr : Json → String
  -- settings.audio_storage_path
  pub audio_storage_path : String

-- A JSON value as `str.format` prints it.
abbrev pub text_of : (Json → String) → Json → String
text_of repr null = "None"
text_of repr (bool true) = "True"
text_of repr (bool false) = "False"
text_of repr (num t) = t
text_of repr (str s) = s
text_of repr (uuid n) = decimal n
text_of repr v = repr v
