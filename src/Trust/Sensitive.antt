-- ===== src/Trust/Sensitive.antt =====
-- backend/app/trust/sensitive_check.py: a language model marks what is sensitive in a transcript.
use ai_badge.Prelude.{
  if◌then◌else◌, ◌⊕◌, ℕ, zero, suc, String, Bool, true, false, Option, none, some, [], ◌∷◌,
}
use ai_badge.Model.{Result, ok, err}
use ai_badge.Model.Json.{get_or, Json, str, uuid, arr, obj, no_items}
use ai_badge.Model.JsonSchema.{
  Schema, any_text, one_of, array_of, object_of, Properties, no_more, property,
}
use ai_badge.Agents.Providers.{completion, Completion, written}

-- `SENSITIVE_PROMPT.format(transcript=...)`
unfoldable pub sensitive_prompt : String → String
sensitive_prompt transcript =
    "Analyze the following transcript for potentially sensitive information.\n" ⊕ "\n"
    ⊕ "Return a JSON list of detected items. Each item should have:\n"
    ⊕ "- type: one of \"pii\" (personally identifiable), \"financial\", \"credential\", \"medical\", \"confidential\"\n"
    ⊕ "- excerpt: the exact text (max 80 chars)\n"
    ⊕ "- severity: \"low\", \"medium\", or \"high\"\n" ⊕ "\n"
    ⊕ "Only flag items that are clearly sensitive. Do NOT flag normal business discussion.\n"
    ⊕ "If nothing sensitive is found, return an empty list.\n" ⊕ "\n" ⊕ "Transcript:\n" ⊕ "---\n"
    ⊕ transcript ⊕ "\n" ⊕ "---"

abbrev pub finding_schema : Schema
finding_schema = object_of (
    property "type" (one_of ("pii" ∷ "financial" ∷ "credential" ∷ "medical" ∷ "confidential" ∷ []))
      (property "excerpt" (any_text (some 80))
        (property "severity" (one_of ("low" ∷ "medium" ∷ "high" ∷ [])) no_more)))

abbrev pub sensitive_properties : Properties
sensitive_properties = property "findings" (array_of finding_schema) no_more

abbrev pub sensitive_schema : Schema
sensitive_schema = object_of sensitive_properties

-- `text[:n]`
abbrev pub first_characters : ℕ → String → String
first_characters zero s = String.[]
first_characters (suc n) String.[] = String.[]
first_characters (suc n) (String.◌∷◌ c s) = String.◌∷◌ c (first_characters n s)

-- `result.get("findings", [])`; only a dict has `get`
abbrev findings_of : Json → Option Json
findings_of (obj fields) = some (get_or "findings" (arr no_items) fields)
findings_of _ = none

-- `len(findings)`, which raises on what has no length
abbrev pub has_length : Json → Bool
has_length (str s) = true
has_length (uuid n) = true
has_length (arr items) = true
has_length (obj fields) = true
has_length _ = false

abbrev pub counted : Option Json → Json
counted none = arr no_items
counted (some v) = if has_length v then v else arr no_items

-- The body of the `try`, and its `except`, which answers with no findings.
abbrev pub marked : Result Json → Json
marked (err e) = arr no_items
marked (ok result) = counted (findings_of result)

-- The call of the model: the first 8000 characters, and at most 1024 tokens of answer.
unfoldable pub sensitive_completion : String → Completion
unfolding sensitive_prompt
sensitive_completion transcript =
    let prompt = sensitive_prompt (first_characters 8000 transcript) in
    record (completion prompt (written sensitive_schema)) { max_tokens = 1024 }

unfoldable pub check_sensitive : (Completion → Result Json) → String → Json
check_sensitive complete transcript = marked (complete (sensitive_completion transcript))
