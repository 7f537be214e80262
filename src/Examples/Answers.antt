-- ===== src/Examples/Answers.antt =====
-- A service that keeps to the schemas it is sent, and what the program reads of its answers.
use ai_badge.Prelude.{
  if◌then◌else◌, Bool-cases, string_eq, nat_eq, ◌==◌, String, ◌≡◌, refl, inl, inr, true, ◌&&◌,
  Option, none, some, [], ◌∷◌, arith,
}
use ai_badge.Model.{
  session_status_eq, job_status_eq, artifact_status_eq, SessionStatus, JobStatus, opt_eq, key_eq,
  Job, IdempotencyKey, continue, World, Result, ok,
}
use ai_badge.Model.Json.{get_or, Json, str, arr, obj, Items, no_items, Fields, end, field}
use ai_badge.Model.JsonSchema.{
  is_one_of, all_items, conforms, Schema, any_text, one_of, array_of, object_of, no_more, property,
}
use ai_badge.Agents.Providers.{Format, written, of_class}
use ai_badge.Agents.OpenAi.{complete, ResponseFormat, Client}
use ai_badge.Agents.Prompts.{artifact_types, extract}
use ai_badge.Agents.Distiller.{schema_type, store_artifact, handle_extract_artifact_job}
use ai_badge.Agents.Answers.{handle_extract_artifact_job-typed}
use ai_badge.Agents.Structured.{complete-summary_type, IsStrict}
use ai_badge.Trust.Sensitive.{finding_schema, check_sensitive}
use ai_badge.Trust.Findings.{check_sensitive-conforms}
use ai_badge.Examples.Data.{session_in, transcription, world_of, answering}

-- The texts that it sends, which stand for the values that `loads` makes of them.
answer_to : Schema → Option String
answer_to (object_of (property k (array_of s) no_more)) =
    if k == "findings" then some "nothing found" else none
answer_to
      (object_of (
        property k
          (any_text none)
          (property l (one_of names) (property m (any_text none) no_more)))) =
    if k == "summary" && (l == "artifact_type" && (m == "title" && is_one_of names "faq_draft"))
    then some "a list of questions"
    else none
answer_to _ = none

abbrev questions : Fields
questions =
    field "summary" (str "Asked.")
      (field "artifact_type" (str "faq_draft") (field "title" (str "Questions") end))

parse : String → Option Json
parse t =
    if t == "{}"
    then some (obj end)
    else if t == "nothing found"
    then some (obj (field "findings" (arr no_items) end))
    else if t == "a list of questions"
    then some (obj questions)
    else none

honest :
    (s : Schema) (text : String)
    → answer_to s ≡ some text
    → (v : Json) × (parse text ≡ some v) × (conforms s v ≡ true)
unfolding answer_to parse
honest (object_of (property k (array_of s) no_more)) text h = elim (Bool-cases (k == "findings")) [
  | inl e ↦
      let is : k ≡ "findings" = (string_eq.same_iff k "findings").0 e in
      let same : "nothing found" ≡ text = ground arith in
      (obj (field "findings" (arr no_items) end), rw (← same) refl, rw is refl)
  | inr e ↦ absurd (ground arith)
]
honest
      (object_of (
        property k
          (any_text none)
          (property l (one_of names) (property m (any_text none) no_more))))
      text h =
    elim (Bool-cases
      (k == "summary" && (l == "artifact_type" && (m == "title" && is_one_of names "faq_draft")))) [
        | inl e ↦
            let k_is : k ≡ "summary" = ground (arith, string_eq.same_iff k "summary") in
            let l_is : l ≡ "artifact_type" = ground (arith, string_eq.same_iff l "artifact_type") in
            let m_is : m ≡ "title" = ground (arith, string_eq.same_iff m "title") in
            let among : is_one_of names "faq_draft" ≡ true = ground arith in
            let same : "a list of questions" ≡ text = ground arith in
            (obj questions, rw (← same) refl, rw (k_is, l_is, m_is, among) refl)
        | inr e ↦ absurd (ground arith)
      ]
honest _ text h = cc

abbrev send : Format → Result (Option String)
send (written s) = ok (answer_to s)
send (of_class t) = ok none

abbrev create : Option ResponseFormat → Result (Option String)
create none = ok none
create (some f) = send f.schema

abbrev service : Client
service = record {
  create = λ call. create call.response_format;
  stream = λ call. ok [];
  loads = parse;
}

sent_schema :
    (o : Option ResponseFormat) (f : ResponseFormat) (s : Schema) (text : String)
    → o ≡ some f
    → f.schema ≡ written s
    → create o ≡ ok (some text)
    → answer_to s ≡ some text
sent_schema o f s text sent schema h = ground arith

service-IsStrict : IsStrict service
unfolding parse
service-IsStrict = record {
  honours = λ call f s text sent on schema answer full.
      honest s text (sent_schema call.response_format f s text sent schema answer);
  empty = refl;
}

complete-summary_type_example :
    (f : Fields) × (obj questions ≡ obj f)
    × (kind : String) × (schema_type (get_or "artifact_type" (str "meeting_minutes") f) ≡ some kind)
    × (is_one_of artifact_types kind ≡ true)
unfolding complete answer_to parse
complete-summary_type_example =
    complete-summary_type service "hello" (obj questions) service-IsStrict refl

check_sensitive-conforms_example :
    (findings : Items) × (check_sensitive (complete service) "hello" ≡ arr findings)
    × (all_items (conforms finding_schema) findings ≡ true)
check_sensitive-conforms_example = check_sensitive-conforms service "hello" service-IsStrict

abbrev transcribed_job : Job
transcribed_job = record transcription {
  status = JobStatus.completed;
  output_payload = some (field "transcript" (str "hello") end);
}

abbrev summarized_job : Job
summarized_job = record transcription {
  id = 21;
  idempotency_key = IdempotencyKey.pipeline (some 1) "summarize";
  job_type = "summarize";
  status = JobStatus.completed;
  output_payload = some questions;
}

abbrev extraction : Job
extraction = record transcription {
  id = 22;
  idempotency_key = IdempotencyKey.pipeline (some 1) "extract_artifact";
  job_type = "extract_artifact";
  status = JobStatus.running;
}

abbrev distilling : World
distilling =
    world_of (session_in SessionStatus.processing ∷ [])
      (transcribed_job ∷ summarized_job ∷ extraction ∷ []) []

handle_extract_artifact_job-typed_example :
    (kind : String) × (is_one_of artifact_types kind ≡ true)
    × (handle_extract_artifact_job answering extraction distilling
        ≡ continue
            (extract answering (str "hello") kind (str "Questions"))
            (λ content. store_artifact extraction kind (str "Questions") content (str "Asked."))
            distilling)
handle_extract_artifact_job-typed_example =
    handle_extract_artifact_job-typed answering extraction transcribed_job summarized_job
      (field "transcript" (str "hello") end) questions distilling refl refl refl refl refl
