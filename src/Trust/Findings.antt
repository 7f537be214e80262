-- ===== src/Trust/Findings.antt =====
-- What check_sensitive of backend/app/trust/sensitive_check.py answers, over any model and over one
-- that keeps to its schema.
use ai_badge.Prelude.{String, ◌≡◌, refl, ◌⊎◌, inl, inr, true, Option, none, some, arith}
use ai_badge.Model.{Result, ok, err}
use ai_badge.Model.Json.{
  Json, null, bool, num, str, uuid, arr, obj, Items, get, get_or, no_items, Fields, end,
}
use ai_badge.Model.JsonSchema.{present, all_items, conforms, array_of}
use ai_badge.Agents.Providers.{Completion}
use ai_badge.Agents.OpenAi.{complete, Client}
use ai_badge.Agents.Structured.{complete-conforms, is_dict, IsStrict}
use ai_badge.Trust.Sensitive.{
  finding_schema, sensitive_properties, sensitive_schema, has_length, marked, sensitive_completion,
  check_sensitive,
}

marked-has_length : (r : Result Json) → has_length (marked r) ≡ true
marked-has_length (err e) = refl
marked-has_length (ok (obj f)) = ground arith
marked-has_length (ok _) = refl

-- Whatever the model answers, a list, a text, a number or an exception, the check returns something
-- that has a length.
pub check_sensitive-has_length :
    (complete : Completion → Result Json) (transcript : String)
    → has_length (check_sensitive complete transcript) ≡ true
unfolding check_sensitive
check_sensitive-has_length complete transcript =
    marked-has_length (complete (sensitive_completion transcript))

listed :
    (o : Option Json)
    → present (conforms (array_of finding_schema)) o ≡ true
    → (findings : Items) × (o ≡ some (arr findings))
      × (all_items (conforms finding_schema) findings ≡ true)
listed none h = cc
listed (some null) h = cc
listed (some (bool b)) h = cc
listed (some (num t)) h = cc
listed (some (str t)) h = cc
listed (some (uuid n)) h = cc
listed (some (arr xs)) h = (xs, refl, h)
listed (some (obj f)) h = cc

-- The findings that a conforming or an empty answer holds.
findings_of_dict :
    (f : Fields)
    → (conforms sensitive_schema (obj f) ≡ true) ⊎ (f ≡ end)
    → (findings : Items) × (marked (ok (obj f)) ≡ arr findings)
      × (all_items (conforms finding_schema) findings ≡ true)
findings_of_dict f (inr e) = (no_items, rw e refl, refl)
findings_of_dict f (inl h) = found f (listed (get "findings" f) (ground arith))
  where
    found :
        (f : Fields)
        → (findings : Items) × (get "findings" f ≡ some (arr findings))
          × (all_items (conforms finding_schema) findings ≡ true)
        → (findings : Items) × (marked (ok (obj f)) ≡ arr findings)
          × (all_items (conforms finding_schema) findings ≡ true)
    found f (xs, e, all) = (xs, rw (e, get_or) refl, all)

marked_of_dict :
    (v : Json)
    → (f : Fields) × (v ≡ obj f) × ((conforms sensitive_schema (obj f) ≡ true) ⊎ (f ≡ end))
    → (findings : Items) × (marked (ok v) ≡ arr findings)
      × (all_items (conforms finding_schema) findings ≡ true)
marked_of_dict v (f, dict, h) = rw dict (findings_of_dict f h)

-- Over a service that keeps to strict schemas, the check of any transcript ends in a list of
-- findings, each of them with exactly a type, an excerpt of at most 80 characters and a severity out
-- of those that the schema names; also where the service raises or its message is empty, when the
-- list has no findings.
pub check_sensitive-conforms :
    (c : Client) (transcript : String)
    → IsStrict c
    → (findings : Items) × (check_sensitive (complete c) transcript ≡ arr findings)
      × (all_items (conforms finding_schema) findings ≡ true)
unfolding check_sensitive sensitive_completion
check_sensitive-conforms c transcript strict =
    by_answer (complete c (sensitive_completion transcript)) refl
  where
    by_answer :
        (r : Result Json)
        → complete c (sensitive_completion transcript) ≡ r
        → (findings : Items) × (marked (complete c (sensitive_completion transcript))
            ≡ arr findings)
          × (all_items (conforms finding_schema) findings ≡ true)
    by_answer (err e) h = (no_items, rw h refl, refl)
    by_answer (ok v) h = rw h (
        marked_of_dict v (
          is_dict sensitive_properties v (
            complete-conforms c strict (sensitive_completion transcript) sensitive_schema v refl
              h)))
