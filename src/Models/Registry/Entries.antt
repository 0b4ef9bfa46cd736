-- ===== src/Models/Registry/Entries.antt =====
-- The settings that protoneo/llm/registry.py reads, and the ids of models. Of a JSON entry the values
-- that are tested by their truth are Booleans; a rate is rounded already.
use protoneo.Prelude.{
  ℕ, ◌+◌, String, Bool, false, ◌&&◌, ◌||◌, Option, none, some, List, [], ◌∷◌, ltb, leb,
  if◌then◌else◌, ◌+s◌, ◌==◌,
}
use Prim.Native.Char.{code}
use Prim.Native.String.{len, slice, [] as no_text, ◌∷◌ as ◌∷s◌}
use text.Mathlib.Text.{starts_with, find?}

-- `str.lower`, and `_slugify` of settings.py
pub record Words : Type 0 where
  pub lower : String → String
  pub slugify : String → String

pub record Endpoint : Type 0 where
  pub id : String
  pub display_name : String
  pub url : String
  pub kind : String

pub record Benchmark : Type 0 where
  pub provider : String
  pub model_id : String
  pub tags : List String
  pub tokens_per_second : ℕ
  pub output_valid_json : Bool

-- An entry of the discovery cache. `contexts` are the six keys for the context length in their order,
-- `none` where `int` raises.
pub record Entry : Type 0 where
  pub id : String
  pub source : String
  pub provider_type : String
  pub metadata_source : String
  pub has_vision : Bool
  pub tools : Bool
  pub reasoning : Bool
  pub has_structured_output : Bool
  pub json_schema : Bool
  pub is_free : Bool
  pub contexts : List (Option ℕ)

pub record Settings : Type 0 where
  pub endpoints : List Endpoint
  pub discovered_models : List (String × List Entry)
  pub active_models : List (String × String)
  pub benchmark_results : List Benchmark

abbrev pub empty_entry : Entry
empty_entry = record {
  id = "";
  source = "";
  provider_type = "";
  metadata_source = "";
  has_vision = false;
  tools = false;
  reasoning = false;
  has_structured_output = false;
  json_schema = false;
  is_free = false;
  contexts = [];
}

abbrev pub named_entry : String → Entry
named_entry raw_id = record empty_entry { id = raw_id }

-- `benchmark_by_key.get((provider, id))`: the last of those with the key.
unfoldable pub benchmark_of : (provider id : String) → List Benchmark → Option Benchmark
benchmark_of provider id [] = none
benchmark_of provider id (b ∷ bs) = elim (benchmark_of provider id bs) [
  | some later ↦ some later
  | none ↦ if b.provider == provider && b.model_id == id then some b else none
]

unfoldable pub prefixed_model_id : (provider id : String) → String
prefixed_model_id provider id =
    if starts_with id (provider +s "/") then id else provider +s "/" +s id

unfoldable pub raw_model_id : (provider id : String) → String
raw_model_id provider id =
    if starts_with id (provider +s "/") then slice id (len (provider +s "/")) (len id) else id

-- `id.split("/", 1)`
unfoldable pub before_slash : String → String
before_slash id = elim (find? id "/") [ none ↦ "unknown" | some i ↦ slice id 0 i ]

unfoldable pub after_slash : String → String
after_slash id = elim (find? id "/") [ none ↦ id | some i ↦ slice id (i + 1) (len id) ]

abbrev is_alphanumeric : ℕ → Bool
is_alphanumeric c = (leb 97 c && leb c 122) || (leb 48 c && leb c 57)

-- `re.sub(r"[^a-z0-9]+", "", text)`
unfoldable pub alphanumerics : String → String
alphanumerics no_text = no_text
alphanumerics (c ∷s s) =
    let rest = alphanumerics s in if is_alphanumeric (code c) then c ∷s rest else rest

unfoldable pub entry_context_length : List (Option ℕ) → ℕ
entry_context_length [] = 0
entry_context_length (none ∷ cs) = entry_context_length cs
entry_context_length (some n ∷ cs) =
    let rest = entry_context_length cs in if ltb 0 n then n else rest
