-- ===== src/Answers/Tests.antt =====
-- An answer with two objects for protoneo/llm/structured.py, and the theorems at it.
use protoneo.Prelude.{◌≡◌, refl, false, Option, none, some, [], ◌∷◌, ◌=ℕ◌, if◌then◌else◌}
use protoneo.Json.{Json, obj, end}
use protoneo.Answers.{
  Text, Host, scan, from_opening, next_candidate, extract_balanced, extract_balanced_json,
  strip_thinking_output, sanitize_structured_text, first_fenced, extract_from_cleaned,
  extract_json_value, extract_json_object,
}

-- A stand-in for `json.loads` that takes every text that begins with a brace.
abbrev loads : Text → Option Json
loads [] = none
loads (c ∷ text) = if c =ℕ 123 then some (obj end) else none

abbrev host : Host
host = record {
  loads = loads;
  strip = λ text. text;
  without_thinking = λ text. text;
  without_open_thinking = λ text. text;
  without_output_tags = λ text. text;
  without_thinking_tags = λ text. text;
  fenced = λ text. [];
}

-- a{}b{"}"}
abbrev answer : Text
answer = 97 ∷ 123 ∷ 125 ∷ 98 ∷ 123 ∷ 34 ∷ 125 ∷ 34 ∷ 125 ∷ []

takes_longest :
    extract_balanced host 123 125 10 answer (record { value = none; size = 0 })
    ≡ some (record { value = some (obj end); size = 5 })
unfolding extract_balanced next_candidate from_opening scan
takes_longest = refl

takes_object : extract_json_object host [] false answer ≡ some end
unfolding extract_json_object extract_json_value extract_from_cleaned extract_balanced_json
    extract_balanced next_candidate from_opening scan first_fenced sanitize_structured_text
    strip_thinking_output
takes_object = refl
