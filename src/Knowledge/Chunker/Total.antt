-- ===== src/Knowledge/Chunker/Total.antt =====
-- protoneo/knowledge/chunker.py returns its chunks, and these cover the text.
use protoneo.Prelude.{
  ℕ, zero, suc, ◌+◌, ◌*◌, ◌≤◌, ◌<◌, ◌≡◌, refl, ap, ◌∙◌, inl, inr, Bool, false, ◌&&◌, Option, some,
  List, [], ◌∷◌, arith, ltb, leb, if◌then◌else◌, ltb→lt, Bool-cases, length,
}
use protoneo.Knowledge.Chunker.{
  Text, is_blank, strip, slice, cut_end, next_start, add_chunk, chunk_loop, chunk_text,
}
use protoneo.Knowledge.Chunker.Cuts.{cut_end-bounds, next_start-later}

-- The stripped texts of the spans, without the blank ones.
abbrev pub texts_of : (space : ℕ → Bool) → Text → List (ℕ × ℕ) → List Text
texts_of space text [] = []
texts_of space text ((start, end) ∷ spans) =
    let chunk = strip space (slice start end text) in
    let rest = texts_of space text spans in if is_blank chunk then rest else chunk ∷ rest

-- The spans begin at `start` or before it, each where the one before it ends or earlier, and reach the
-- end of a text of `size` code points; none is longer than the chunk size.
abbrev pub Tiles : (chunk_size size : ℕ) → (start : ℕ) → List (ℕ × ℕ) → Type 0
Tiles chunk_size size start [] = size ≤ start
Tiles chunk_size size start ((a, b) ∷ spans) =
    (a ≤ start) × ((a < b) × ((b ≤ a + chunk_size) × Tiles chunk_size size b spans))

Tiles-earlier :
    (chunk_size size start later : ℕ) (spans : List (ℕ × ℕ))
    → start ≤ later
    → Tiles chunk_size size start spans
    → Tiles chunk_size size later spans
Tiles-earlier chunk_size size start later [] l h = omega (arith, h)
Tiles-earlier chunk_size size start later ((a, b) ∷ spans) l h = (omega (arith, h.0), h.1)

add_chunk-eq :
    (chunk : Text) (rest : List Text)
    → add_chunk chunk (some rest) ≡ some (if is_blank chunk then rest else chunk ∷ rest)
add_chunk-eq [] rest = refl
add_chunk-eq (c ∷ cs) rest = refl

module _ (space : ℕ → Bool) (chunk_size overlap : ℕ) (text : Text) where
  -- The loop from `start` has the texts of spans that cover what is left.
  abbrev pub Covered : (start : ℕ) → Option (List Text) → Type 0
  Covered start result =
      (spans : List (ℕ × ℕ)) × ((result ≡ some (texts_of space text spans))
        × Tiles chunk_size (length text) start spans)

  step-Covered :
      (start : ℕ) (rest : Option (List Text))
      → 0 < chunk_size
      → 10 * overlap ≤ 3 * chunk_size
      → start < length text
      → Covered (next_start chunk_size overlap start text) rest
      → Covered start
          (add_chunk (strip space (slice start (cut_end chunk_size start text) text)) rest)
  step-Covered start rest h k l (spans, (e, t)) =
      let end = cut_end chunk_size start text in
      let later = next_start-later chunk_size overlap start text h k l in
      let bounds = cut_end-bounds chunk_size start text h in
      (
        (start, end) ∷ spans,
        (
          ap (add_chunk (strip space (slice start end text))) e
              ∙ add_chunk-eq (strip space (slice start end text)) (texts_of space text spans),
          (
            omega arith,
            (
              omega (arith, bounds.0),
              (
                bounds.1,
                Tiles-earlier chunk_size (length text) (next_start chunk_size overlap start text)
                    end spans later.1.0 t,
              ),
            ),
          ),
        ),
      )

  pub chunk_loop-Covered :
      (fuel start : ℕ)
      → 0 < chunk_size
      → 10 * overlap ≤ 3 * chunk_size
      → start ≤ length text
      → length text < fuel + start
      → Covered start (chunk_loop space chunk_size overlap text fuel start)
  unfolding chunk_loop
  chunk_loop-Covered zero start h k l f = ground arith
  chunk_loop-Covered (suc fuel) start h k l f = elim (Bool-cases (ltb start (length text))) [
    | inl e ↦
        let inside = ltb→lt start (length text) e in
        let later = next_start-later chunk_size overlap start text h k inside in
        let next = next_start chunk_size overlap start text in
        let rest = chunk_loop-Covered fuel next h k later.1.1.0 (omega (arith, later.0)) in
        let fair : (ltb (cut_end chunk_size start text) (length text)
              && ltb (cut_end chunk_size start text) overlap)
            ≡ false =
          ground (arith, later.1.1.1) in
        rw (e, fair)
          (step-Covered start (chunk_loop space chunk_size overlap text fuel next) h k inside rest)
    | inr e ↦ rw e ([], (refl, ground (arith, e)))
  ]

  -- A text longer than the chunk size is cut, with more fuel than it has code points and an overlap of at
  -- most three tenths of the chunk size, into the stripped texts, in order and without the blank ones, of
  -- spans that are no longer than the chunk size, of which each begins where the one before it ends or
  -- earlier, and which reach from the text's start to its end.
  pub chunk_text-Covered :
      (fuel : ℕ)
      → 0 < chunk_size
      → 10 * overlap ≤ 3 * chunk_size
      → chunk_size < length text
      → length text < fuel
      → Covered 0 (chunk_text space fuel text chunk_size overlap)
  unfolding chunk_text
  chunk_text-Covered fuel h k l f =
      let long : leb (length text) chunk_size ≡ false = ground arith in
      rw long (chunk_loop-Covered fuel 0 h k (omega arith) (omega arith))
