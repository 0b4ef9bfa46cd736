-- ===== src/Knowledge/Chunker.antt =====
-- protoneo/knowledge/chunker.py: a text in chunks that overlap and end with a sentence where they can.
-- A text is the list of its code points; `space` is the test of `str.isspace` for one of them.
pub mod Cuts
pub mod Total
pub mod Sizes
mod Tests
use protoneo.Prelude.{
  ℕ, zero, suc, ◌+◌, ◌-◌, ◌*◌, Bool, true, false, ◌&&◌, Option, none, some, List, [], ◌∷◌, ltb, leb,
  ◌=ℕ◌, if◌then◌else◌, length, take, drop,
}

abbrev pub Text : Type 0
Text = List ℕ

-- `text.strip()`
unfoldable pub lstrip : (space : ℕ → Bool) → Text → Text
lstrip space [] = []
lstrip space (c ∷ cs) = let rest = lstrip space cs in if space c then rest else c ∷ cs

abbrev pub is_blank : Text → Bool
is_blank [] = true
is_blank (c ∷ cs) = false

unfoldable pub rstrip : (space : ℕ → Bool) → Text → Text
rstrip space [] = []
rstrip space (c ∷ cs) =
    let rest = rstrip space cs in if space c && is_blank rest then [] else c ∷ rest

unfoldable pub strip : (space : ℕ → Bool) → Text → Text
strip space text = rstrip space (lstrip space text)

-- `text[start:end]`
abbrev pub slice : (start end : ℕ) → Text → Text
slice start end text = take (end - start) (drop start text)

unfoldable pub begins : (part text : Text) → Bool
begins [] text = true
begins (p ∷ ps) [] = false
begins (p ∷ ps) (c ∷ cs) = p =ℕ c && begins ps cs

-- `text.rfind(part)`, for a part that is not empty
abbrev found_in : Option ℕ → (here : Bool) → Option ℕ
found_in (some i) here = some (suc i)
found_in none here = if here then some 0 else none

unfoldable pub rfind : (part text : Text) → Option ℕ
rfind part [] = none
rfind part (c ∷ cs) = found_in (rfind part cs) (begins part (c ∷ cs))

-- ".\n" "!\n" "?\n" "\n\n" ". " "! " "? "
abbrev pub separators : List Text
separators =
    (46 ∷ 10 ∷ [])
    ∷ (33 ∷ 10 ∷ [])
    ∷ (63 ∷ 10 ∷ [])
    ∷ (10 ∷ 10 ∷ [])
    ∷ (46 ∷ 32 ∷ [])
    ∷ (33 ∷ 32 ∷ [])
    ∷ (63 ∷ 32 ∷ [])
    ∷ []

-- `last_sep != -1 and last_sep > chunk_size * 0.3`: where the first separator that stands far enough
-- ends, counted from the window's start.
abbrev pub far_enough : (chunk_size : ℕ) → Text → Option ℕ → Option ℕ → Option ℕ
far_enough chunk_size sep none rest = rest
far_enough chunk_size sep (some i) rest =
    if ltb (3 * chunk_size) (10 * i) then some (i + length sep) else rest

unfoldable pub sentence_end : (chunk_size : ℕ) → Text → List Text → Option ℕ
sentence_end chunk_size window [] = none
sentence_end chunk_size window (sep ∷ seps) =
    far_enough chunk_size sep (rfind sep window) (sentence_end chunk_size window seps)

abbrev pub after : (start size : ℕ) → Option ℕ → ℕ
after start size none = start + size
after start size (some n) = start + n

unfoldable pub cut_end : (chunk_size start : ℕ) → Text → ℕ
cut_end chunk_size start text =
    if ltb (start + chunk_size) (length text)
    then after start chunk_size
        (sentence_end chunk_size (slice start (start + chunk_size) text) separators)
    else start + chunk_size

unfoldable pub next_start : (chunk_size overlap start : ℕ) → Text → ℕ
next_start chunk_size overlap start text =
    let end = cut_end chunk_size start text in
    if ltb end (length text) then end - overlap else length text

abbrev pub add_chunk : Text → Option (List Text) → Option (List Text)
add_chunk chunk none = none
add_chunk [] (some chunks) = some chunks
add_chunk (c ∷ cs) (some chunks) = some ((c ∷ cs) ∷ chunks)

-- The loop, on fuel. It has no result where the fuel runs out, or where an overlap larger than the end
-- would make the next start negative.
unfoldable pub chunk_loop :
    (space : ℕ → Bool) → (chunk_size overlap : ℕ) → Text → (fuel start : ℕ) → Option (List Text)
chunk_loop space chunk_size overlap text zero start = none
chunk_loop space chunk_size overlap text (suc fuel) start =
    let end = cut_end chunk_size start text in
    let rest =
      chunk_loop space chunk_size overlap text fuel (next_start chunk_size overlap start text) in
    if ltb start (length text)
    then (if ltb end (length text) && ltb end overlap
        then none
        else add_chunk (strip space (slice start end text)) rest)
    else some []

unfoldable pub chunk_text :
    (space : ℕ → Bool) → (fuel : ℕ) → Text → (chunk_size overlap : ℕ) → Option (List Text)
chunk_text space fuel text chunk_size overlap =
    if leb (length text) chunk_size
    then some (if is_blank (strip space text) then [] else text ∷ [])
    else chunk_loop space chunk_size overlap text fuel 0
