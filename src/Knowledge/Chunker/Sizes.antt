-- ===== src/Knowledge/Chunker/Sizes.antt =====
-- The sizes of the chunks of protoneo/knowledge/chunker.py, and an overlap that stops it.
use protoneo.Prelude.{
  ℕ, zero, suc, ◌*◌, ◌≤◌, ◌<◌, ◌≡◌, refl, inl, inr, Bool, false, none, some, List, [], ◌∷◌, arith,
  leb, if◌then◌else◌, leb→le, Bool-cases, length, All,
}
use protoneo.Knowledge.Chunker.{
  Text, lstrip, is_blank, rstrip, strip, slice, cut_end, next_start, chunk_loop, chunk_text,
}
use protoneo.Knowledge.Chunker.Cuts.{length-slice-le}
use protoneo.Knowledge.Chunker.Total.{texts_of, Tiles, chunk_loop-Covered}

module _ (space : ℕ → Bool) where
  length-lstrip-le : (text : Text) → length (lstrip space text) ≤ length text
  unfolding lstrip
  length-lstrip-le [] = omega arith
  length-lstrip-le (c ∷ cs) = ground (arith, length-lstrip-le cs)

  length-rstrip-le : (text : Text) → length (rstrip space text) ≤ length text
  unfolding rstrip
  length-rstrip-le [] = omega arith
  length-rstrip-le (c ∷ cs) = ground (arith, length-rstrip-le cs)

  length-strip-le : (text : Text) → length (strip space text) ≤ length text
  unfolding strip
  length-strip-le text = omega (arith, length-rstrip-le (lstrip space text), length-lstrip-le text)

  -- No chunk is empty or longer than the chunk size.
  abbrev pub Sized : (chunk_size : ℕ) → Text → Type 0
  Sized chunk_size chunk = (0 < length chunk) × (length chunk ≤ chunk_size)

  with_chunk-Sized :
      (chunk_size : ℕ) (chunk : Text) (rest : List Text)
      → length chunk ≤ chunk_size
      → All (Sized chunk_size) rest
      → All (Sized chunk_size) (if is_blank chunk then rest else chunk ∷ rest)
  with_chunk-Sized chunk_size [] rest l h = h
  with_chunk-Sized chunk_size (c ∷ cs) rest l h = ((omega arith, l), h)

  texts_of-Sized :
      (chunk_size size start : ℕ) (text : Text) (spans : List (ℕ × ℕ))
      → Tiles chunk_size size start spans
      → All (Sized chunk_size) (texts_of space text spans)
  texts_of-Sized chunk_size size start text [] t = tt
  texts_of-Sized chunk_size size start text ((a, b) ∷ spans) t =
      with_chunk-Sized chunk_size (strip space (slice a b text)) (texts_of space text spans)
        (omega (arith, t.1.1.0, length-strip-le (slice a b text), length-slice-le a b text))
        (texts_of-Sized chunk_size size b text spans t.1.1.1)

  whole_text :
      (chunk_size : ℕ) (text : Text)
      → length text ≤ chunk_size
      → All (Sized chunk_size) (if is_blank (strip space text) then [] else text ∷ [])
  unfolding strip lstrip rstrip
  whole_text chunk_size [] l = tt
  whole_text chunk_size (c ∷ cs) l = elim (Bool-cases (is_blank (strip space (c ∷ cs)))) [
    | inl e ↦ rw e tt
    | inr e ↦ rw e ((omega arith, l), tt)
  ]

  -- With an overlap of at most three tenths of the chunk size, the chunks of every text are computed
  -- within as many rounds as it has code points and one more, and none is empty or longer than the chunk
  -- size.
  pub chunk_text-Sized :
      (text : Text) (chunk_size overlap fuel : ℕ)
      → 0 < chunk_size
      → 10 * overlap ≤ 3 * chunk_size
      → length text < fuel
      → (chunks : List Text) × ((chunk_text space fuel text chunk_size overlap ≡ some chunks)
          × All (Sized chunk_size) chunks)
  unfolding chunk_text
  chunk_text-Sized text chunk_size overlap fuel h k f =
      elim (Bool-cases (leb (length text) chunk_size)) [
        | inl e ↦ rw e (
          if is_blank (strip space text) then [] else text ∷ [],
          (refl, whole_text chunk_size text (leb→le (length text) chunk_size e)),
        )
        | inr e ↦
            let loop =
              chunk_loop-Covered space chunk_size overlap text fuel 0 h k (omega arith)
                (omega arith) in
            rw e (
              texts_of space text loop.0,
              (loop.1.0, texts_of-Sized chunk_size (length text) 0 text loop.0 loop.1.1),
            )
      ]

module _ (space : ℕ → Bool) (chunk_size overlap : ℕ) (text : Text) where
  loop-stuck :
      (fuel : ℕ)
      → 0 < length text
      → next_start chunk_size overlap 0 text ≡ 0
      → chunk_loop space chunk_size overlap text fuel 0 ≡ none
  unfolding chunk_loop
  loop-stuck zero l h = refl
  loop-stuck (suc fuel) l h =
      let rest : chunk_loop space chunk_size overlap text fuel
            (next_start chunk_size overlap 0 text)
          ≡ none =
        rw h (loop-stuck fuel l h) in
      ground (arith, rest)

  -- Where the overlap is as long as the first chunk, and the text longer than the chunk size, no number
  -- of rounds is enough: the code cuts the same chunk for ever.
  pub chunk_text-stuck :
      (fuel : ℕ)
      → chunk_size < length text
      → cut_end chunk_size 0 text < length text
      → overlap ≡ cut_end chunk_size 0 text
      → chunk_text space fuel text chunk_size overlap ≡ none
  unfolding chunk_text next_start
  chunk_text-stuck fuel l inside h =
      let long : leb (length text) chunk_size ≡ false = ground arith in
      rw long (loop-stuck fuel (omega arith) (ground (arith, h, inside)))
