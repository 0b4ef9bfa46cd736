-- ===== src/Knowledge/Processor.antt =====
-- DocumentProcessor of protoneo/knowledge/processor.py: parsers with priorities, and the chain of those
-- that can read a file. Parsers are objects that the code compares by identity: a parser is a reference
-- here, and `heap` has what stands under it. Priorities are only compared.
pub mod Outcomes
pub mod Priorities
mod Tests
use protoneo.Prelude.{
  ℕ, String, Bool, not, ◌&&◌, Option, none, some, List, [], ◌∷◌, ◌++◌, map, leb, ◌=ℕ◌,
  if◌then◌else◌, keep, any, find, ◌==◌, one_of, is_empty,
}
use protoneo.Agents.{Document}

pub record File : Type 0 where
  pub stem : String
  pub name : String
  pub suffix : String
  pub on_disk : Bool

pub record ParseResult : Type 0 where
  pub text : String
  pub markdown : String

-- What a parser is: `parse` has no result where the parser raises.
pub record Parser : Type 0 where
  pub name : String
  pub supported_extensions : List String
  pub available : Bool
  pub parse : File → Option ParseResult

-- A post-processor has no result where it raises.
pub record Processor : Type 0 where
  pub parsers : List (ℕ × ℕ)
  pub post_processors : List (String → Option String)

-- A stable sort with the highest priority first.
unfoldable pub insert_parser : ℕ × ℕ → List (ℕ × ℕ) → List (ℕ × ℕ)
insert_parser x [] = x ∷ []
insert_parser x (y ∷ ys) =
    let rest = insert_parser x ys in if leb y.0 x.0 then x ∷ y ∷ ys else y ∷ rest

unfoldable pub sort_parsers : List (ℕ × ℕ) → List (ℕ × ℕ)
sort_parsers [] = []
sort_parsers (x ∷ xs) = insert_parser x (sort_parsers xs)

unfoldable pub register_parser : (parser priority : ℕ) → Processor → Processor
register_parser parser priority s = record s {
  parsers = sort_parsers (s.parsers ++ (priority, parser) ∷ []);
}

unfoldable pub register_post_processor : (String → Option String) → Processor → Processor
register_post_processor f s = record s { post_processors = s.post_processors ++ f ∷ [] }

-- What `process` ends with: FileNotFoundError, ValueError, RuntimeError or the document.
pub data Processed : Type 0 where
  not_found no_parser all_failed : Processed
  processed : Document → Processed

abbrev pub is_in : ℕ → List ℕ → Bool
is_in r rs = any (λ q. r =ℕ q) rs

-- The post-processors one after the other.
unfoldable pub post_process : List (String → Option String) → String → Option String
post_process [] text = some text
post_process (f ∷ fs) text = elim (f text) [ none ↦ none | some better ↦ post_process fs better ]

abbrev pub with_text : File → String → Option String → Option Document
with_text file markdown none = none
with_text file markdown (some text) = some (record {
  document_id = file.stem;
  filename = file.name;
  text = text;
  markdown = markdown;
  chunks = [];
})

abbrev pub cleaned : Processor → File → Option ParseResult → Option Document
cleaned s file none = none
cleaned s file (some result) =
    with_text file result.markdown (post_process s.post_processors result.text)

abbrev pub only_found : Option (ℕ × ℕ) → List ℕ
only_found none = []
only_found (some e) = e.1 ∷ []

abbrev pub or_next : Option Document → Processed → Processed
or_next none rest = rest
or_next (some d) rest = processed d

module _ (heap : ℕ → Parser) where
  unfoldable pub is_usable : (ext : String) → ℕ → Bool
  is_usable ext r = one_of (heap r).supported_extensions ext && (heap r).available

  -- `available_parsers`, of an extension that is in lower case and has its dot
  unfoldable pub available_parsers : (ext : String) → Processor → List String
  available_parsers ext s =
      map (λ (e : ℕ × ℕ). (heap e.1).name) (keep (λ (e : ℕ × ℕ). is_usable ext e.1) s.parsers)

  -- An empty name counts as none.
  unfoldable pub preferred_parser : (preferred : String) → (ext : String) → List (ℕ × ℕ) → List ℕ
  preferred_parser preferred ext parsers =
      if preferred == ""
      then []
      else only_found
          (find (λ (e : ℕ × ℕ). (heap e.1).name == preferred && is_usable ext e.1) parsers)

  unfoldable pub add_candidates : (ext : String) → List (ℕ × ℕ) → (candidates : List ℕ) → List ℕ
  add_candidates ext [] candidates = candidates
  add_candidates ext ((priority, r) ∷ parsers) candidates =
      add_candidates ext parsers
        (if is_usable ext r && not (is_in r candidates) then candidates ++ r ∷ [] else candidates)

  -- What one round of the loop gives: a document, or an exception that it catches.
  unfoldable pub attempt : Processor → File → ℕ → Option Document
  attempt s file r = cleaned s file ((heap r).parse file)

  unfoldable pub try_parsers : Processor → File → List ℕ → Processed
  try_parsers s file [] = all_failed
  try_parsers s file (r ∷ rs) = or_next (attempt s file r) (try_parsers s file rs)

  -- `ext` is the file's suffix in lower case.
  unfoldable pub process : Processor → File → (ext preferred : String) → Processed
  process s file ext preferred =
      let candidates = add_candidates ext s.parsers (preferred_parser preferred ext s.parsers) in
      if not file.on_disk
      then not_found
      else if is_empty candidates
      then no_parser
      else try_parsers s file candidates
