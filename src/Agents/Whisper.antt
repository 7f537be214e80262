-- ===== src/Agents/Whisper.antt =====
-- The transcription providers: backend/app/providers/mock_whisper.py, which is the default, and
-- openai_whisper.py, which is a placeholder.
use ai_badge.Prelude.{◌⊕◌, String, Option, none, some}
use ai_badge.Model.{Result, ok, err, not_implemented}
use ai_badge.Model.Json.{Json, num, str, obj, no_items, item, end, field}
use ai_badge.Agents.Providers.{TranscriptResult}

abbrev segment : String → String → String → Json
segment start stop text =
    obj (field "start" (num start) (field "end" (num stop) (field "text" (str text) end)))

-- `MockWhisperProvider.transcribe`
unfoldable pub transcribe_mock : String → Result TranscriptResult
transcribe_mock audio_path = ok (record {
  transcript =
      "这是一段测试转写文本。今天会议讨论了AI工牌项目的Phase 1A开发计划，"
      ⊕ "团队决定采用FastAPI + PostgreSQL的技术栈，并使用自研Workflow Orchestrator。" ⊕ "下一步需要完成音频上传和转写功能。";
  segments = item (segment "0.0" "5.2" "这是一段测试转写文本。") (
      item (segment "5.2" "12.0" "今天会议讨论了AI工牌项目的Phase 1A开发计划，") (
        item (segment "12.0" "20.0" "团队决定采用FastAPI + PostgreSQL的技术栈，") (
          item (segment "20.0" "26.5" "并使用自研Workflow Orchestrator。")
            (item (segment "26.5" "32.0" "下一步需要完成音频上传和转写功能。") no_items))));
  language = "zh";
})

-- `OpenAIWhisperProvider.transcribe`
unfoldable pub transcribe_openai : String → Result TranscriptResult
transcribe_openai audio_path = err (not_implemented "OPENAI_API_KEY not configured")

-- `get_transcriber`, `set_transcriber`: the mock at the first use, unless a provider was set.
unfoldable pub get_transcriber :
    Option (String → Result TranscriptResult)
    → (String → Result TranscriptResult) × Option (String → Result TranscriptResult)
unfolding transcribe_mock
get_transcriber none = (transcribe_mock, some transcribe_mock)
get_transcriber (some t) = (t, some t)

unfoldable pub set_transcriber :
    (String → Result TranscriptResult)
    → Option (String → Result TranscriptResult)
    → Option (String → Result TranscriptResult)
set_transcriber t kept = some t
