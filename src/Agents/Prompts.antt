-- ===== src/Agents/Prompts.antt =====
-- The prompts and the schema of backend/app/agents/distiller.py, and the calls that carry them.
use ai_badge.Prelude.{◌⊕◌, String, none, List, [], ◌∷◌}
use ai_badge.Model.{Result}
use ai_badge.Model.Json.{Json, Fields}
use ai_badge.Model.JsonSchema.{Schema, any_text, one_of, object_of, Properties, no_more, property}
use ai_badge.Agents.Providers.{completion, text_of, Providers, written, of_class}

-- `SUMMARIZE_PROMPT.format(transcript=...)`
unfoldable pub summarize_prompt : String → String
summarize_prompt transcript =
    "You are an AI assistant that summarizes meeting transcripts.\n" ⊕ "\n"
    ⊕ "Given the following transcript, produce:\n" ⊕ "1. A concise summary (2-3 sentences)\n"
    ⊕ "2. The suggested artifact type (one of: meeting_minutes, decision_record, faq_draft, sop_draft)\n"
    ⊕ "3. A title for the artifact\n" ⊕ "\n" ⊕ "Transcript:\n" ⊕ "---\n" ⊕ transcript ⊕ "\n"
    ⊕ "---\n" ⊕ "\n" ⊕ "Respond as JSON with keys: summary, artifact_type, title."

-- `EXTRACT_PROMPT.format(transcript=..., artifact_type=..., title=...)`
unfoldable pub extract_prompt : String → String → String → String
extract_prompt transcript artifact_type title =
    "You are an AI assistant that extracts structured information from meeting transcripts.\n"
    ⊕ "\n" ⊕ "Transcript:\n" ⊕ "---\n" ⊕ transcript ⊕ "\n" ⊕ "---\n" ⊕ "\n"
    ⊕ "Produce a structured artifact of type '" ⊕ artifact_type ⊕ "' with the title '" ⊕ title
    ⊕ "'.\n" ⊕ "\n"
    ⊕ "The output must conform to the required JSON schema. Be thorough and precise."

abbrev pub artifact_types : List String
artifact_types = "meeting_minutes" ∷ "decision_record" ∷ "faq_draft" ∷ "sop_draft" ∷ []

abbrev pub summarize_properties : Properties
summarize_properties =
    property "summary" (any_text none)
      (property "artifact_type" (one_of artifact_types) (property "title" (any_text none) no_more))

abbrev pub summarize_schema : Schema
summarize_schema = object_of summarize_properties

-- The call of the language model in handle_summarize_job.
unfoldable pub summarize : Providers → Json → Result Fields
unfolding summarize_prompt
summarize p transcript =
    p.complete
      (completion (summarize_prompt (text_of p.repr transcript)) (written summarize_schema))

-- The call of the language model in handle_extract_artifact_job.
unfoldable pub extract : Providers → Json → String → Json → Result Fields
unfolding extract_prompt
extract p transcript artifact_type title = p.complete (
    completion (extract_prompt (text_of p.repr transcript) artifact_type (text_of p.repr title))
      (of_class artifact_type))
