-- ===== src/Answers.antt =====
-- protoneo/llm/structured.py: the JSON value in a model's answer. A text is the list of its code
-- points. What `json.loads` and the module's regular expressions give is of the language's library.
pub mod Candidates
pub mod Parts
pub mod Largest
mod Tests
use protoneo.Prelude.{
  ℕ, zero, suc, ◌-◌, String, Bool, true, false, not, ◌&&◌, ◌||◌, Option, none, some, List, [], ◌∷◌,
  ltb, ◌=ℕ◌, if◌then◌else◌, length, take, drop, one_of, is_empty, first_of,
}
use protoneo.Json.{Json, null, obj, Fields, end, field}

abbrev pub Text : Type 0
Text = List ℕ

-- `loads` has no result where `json.loads` raises; the substitutions are those of `_THINKING_BLOCK_RE`,
-- `_OPEN_THINKING_RE`, `_OUTPUT_TAG_RE` and `_THINKING_TAG_RE` by nothing; `fenced` are the groups of
-- the matches of `_FENCE_RE`.
pub record Host : Type 0 where
  pub loads : Text → Option Json
  pub strip : Text → Text
  pub without_thinking : Text → Text
  pub without_open_thinking : Text → Text
  pub without_output_tags : Text → Text
  pub without_thinking_tags : Text → Text
  pub fenced : Text → List Text

-- The scanner's position is a state of three parts: the depth, `in_string` and `escape`. It gives how
-- many code points there are up to the bracket that closes the first one.
abbrev quote : ℕ
quote = 34

abbrev backslash : ℕ
backslash = 92

abbrev pub add_one : Option ℕ → Option ℕ
add_one none = none
add_one (some n) = some (suc n)

abbrev pub depth_after : (opening closing : ℕ) → (char depth : ℕ) → ℕ
depth_after opening closing char depth =
    if char =ℕ quote
    then depth
    else if char =ℕ opening
    then suc depth
    else if char =ℕ closing
    then depth - 1
    else depth

-- The bracket that closes the first one.
abbrev pub is_last : (opening closing : ℕ) → (char depth : ℕ) → Bool
is_last opening closing char depth =
    not (char =ℕ quote) && not (char =ℕ opening) && char =ℕ closing && depth =ℕ 1

unfoldable pub scan :
    (opening closing : ℕ) → Text → (depth : ℕ) → (in_string escape : Bool) → Option ℕ
scan opening closing [] depth in_string escape = none
scan opening closing (char ∷ text) depth true true =
    add_one (scan opening closing text depth true false)
scan opening closing (char ∷ text) depth true false =
    add_one (scan opening closing text depth (not (char =ℕ quote)) (char =ℕ backslash))
scan opening closing (char ∷ text) depth false escape =
    let rest =
      scan opening closing text (depth_after opening closing char depth) (char =ℕ quote) escape in
    if is_last opening closing char depth then some 1 else add_one rest

-- `text[text.find(opening, pos):]`
unfoldable pub from_opening : (opening : ℕ) → Text → Option Text
from_opening opening [] = none
from_opening opening (char ∷ text) =
    let rest = from_opening opening text in if char =ℕ opening then some (char ∷ text) else rest

abbrev pub split_at : Option ℕ → Text → Option (Text × Text)
split_at none text = none
split_at (some n) text = some (take n text, drop n text)

abbrev pub candidate_at : (opening closing : ℕ) → Option Text → Option (Text × Text)
candidate_at opening closing none = none
candidate_at opening closing (some start) =
    split_at (scan opening closing start 0 false false) start

-- The next candidate, and what stands after it; none where the loop breaks.
unfoldable pub next_candidate : (opening closing : ℕ) → Text → Option (Text × Text)
next_candidate opening closing text = candidate_at opening closing (from_opening opening text)

pub record Best : Type 0 where
  pub value : Option Json
  pub size : ℕ

-- `null` is Python's None, which counts as no value.
abbrev pub not_null : Option Json → Option Json
not_null none = none
not_null (some null) = none
not_null (some v) = some v

abbrev pub better : Option Json → (size : ℕ) → Best → Best
better none size best = best
better (some v) size best =
    if ltb best.size size then record { value = some v; size = size } else best

abbrev pub with_candidate : Option (Text × Text) → Best → (Text → Text → Option Best) → Option Best
with_candidate none best continue = some best
with_candidate (some (candidate, after)) best continue = continue candidate after

module _ (host : Host) where
  -- The loop of `_extract_balanced_json`, on fuel.
  unfoldable pub extract_balanced : (opening closing fuel : ℕ) → Text → Best → Option Best
  extract_balanced opening closing zero text best = none
  extract_balanced opening closing (suc fuel) text best =
      with_candidate (next_candidate opening closing text) best (λ candidate after.
        extract_balanced opening closing fuel after
          (better (not_null (host.loads candidate)) (length candidate) best))

  abbrev pub value_of : Option Best → Option Json
  value_of none = none
  value_of (some best) = best.value

  unfoldable pub extract_balanced_json : (opening closing : ℕ) → Text → Option Json
  extract_balanced_json opening closing text = value_of (
      extract_balanced opening closing (suc (length text)) text (record { value = none; size = 0 }))

  unfoldable pub strip_thinking_output : Text → Text
  strip_thinking_output [] = []
  strip_thinking_output (c ∷ cs) =
      let content = c ∷ cs in
      host.strip (host.without_open_thinking (host.without_thinking content))

  unfoldable pub unwrap_thinking_tags : Text → Text
  unwrap_thinking_tags [] = []
  unwrap_thinking_tags (c ∷ cs) = host.strip (host.without_thinking_tags (c ∷ cs))

  unfoldable pub sanitize_structured_text : Text → Text
  sanitize_structured_text content =
      host.strip (host.without_output_tags (strip_thinking_output content))

  -- The first of the fenced parts that `json.loads` takes.
  unfoldable pub first_fenced : List Text → Option Json
  first_fenced [] = none
  first_fenced (part ∷ parts) = first_of (host.loads (host.strip part)) (first_fenced parts)

  -- What is returned where something is; `null` is returned, and counts as no value for the caller.
  unfoldable pub extract_from_cleaned : Text → Option Json
  extract_from_cleaned [] = none
  extract_from_cleaned (c ∷ text) = not_null (
      first_of (host.loads (c ∷ text)) (
        first_of (first_fenced (host.fenced (c ∷ text))) (
          first_of (extract_balanced_json 123 125 (c ∷ text))
            (extract_balanced_json 91 93 (c ∷ text)))))

  abbrev pub same_text : Text → Text → Bool
  same_text [] [] = true
  same_text [] (d ∷ t) = false
  same_text (c ∷ s) [] = false
  same_text (c ∷ s) (d ∷ t) = c =ℕ d && same_text s t

  unfoldable pub extract_json_value : (allow_thinking_json : Bool) → Text → Option Json
  extract_json_value allow content =
      let cleaned = sanitize_structured_text content in
      let unwrapped = host.strip (host.without_output_tags (unwrap_thinking_tags content)) in
      first_of (extract_from_cleaned cleaned) (
        if allow && not (is_empty unwrapped) && not (same_text unwrapped cleaned)
        then extract_from_cleaned unwrapped
        else none)

abbrev pub has_key : List String → Fields → Bool
has_key keys end = false
has_key keys (field k v fields) = one_of keys k || has_key keys fields

-- The value, where it is an object with one of the required keys, if there are any.
abbrev pub required_object : List String → Option Json → Option Fields
required_object keys (some (obj fields)) =
    if is_empty keys || has_key keys fields then some fields else none
required_object keys _ = none

module _ (host : Host) where
  unfoldable pub extract_json_object :
      (required_keys : List String) → (allow_thinking_json : Bool) → Text → Option Fields
  extract_json_object keys allow content =
      required_object keys (extract_json_value host allow content)
