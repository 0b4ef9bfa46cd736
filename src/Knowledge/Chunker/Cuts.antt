-- ===== src/Knowledge/Chunker/Cuts.antt =====
-- Where protoneo/knowledge/chunker.py cuts a text.
use protoneo.Prelude.{
  ℕ, suc, ◌+◌, ◌-◌, ◌*◌, ◌≤◌, ◌<◌, ◌≡◌, refl, sym, inl, inr, true, false, Option, none, some, List,
  [], ◌∷◌, arith, ltb, ltb→lt, Bool-cases, Option-cases, length, drop, length-take,
}
use protoneo.Knowledge.Chunker.{
  Text, slice, begins, rfind, separators, sentence_end, after, cut_end, next_start,
}

pub length-slice-le : (start end : ℕ) (text : Text) → length (slice start end text) ≤ end - start
length-slice-le start end text = omega (arith, length-take (end - start) (drop start text))

begins-length : (part text : Text) → begins part text ≡ true → length part ≤ length text
unfolding begins
begins-length [] text h = omega arith
begins-length (p ∷ ps) [] h = ground (arith, h)
begins-length (p ∷ ps) (c ∷ cs) h =
    let rest : begins ps cs ≡ true = ground (arith, h) in omega (arith, begins-length ps cs rest)

-- What is found lies in the text.
rfind-fits : (part text : Text) (i : ℕ) → rfind part text ≡ some i → i + length part ≤ length text
unfolding rfind
rfind-fits part [] i h = ground (arith, h)
rfind-fits part (c ∷ cs) i h = elim (Option-cases (rfind part cs)) [
  | inl e ↦ elim (Bool-cases (begins part (c ∷ cs))) [
    | inl b ↦
        let first : i ≡ 0 = ground (arith, h, e, b) in
        omega (arith, begins-length part (c ∷ cs) b, first)
    | inr b ↦ ground (arith, h, e, b)
  ]
  | inr (j, e) ↦
      let later : i ≡ suc j = ground (arith, h, e) in omega (arith, rfind-fits part cs j e, later)
]

-- A sentence's end lies in the window, past three tenths of the chunk size.
sentence_end-bounds :
    (chunk_size : ℕ) (window : Text) (seps : List Text) (n : ℕ)
    → sentence_end chunk_size window seps ≡ some n
    → (3 * chunk_size < 10 * n) × (n ≤ length window)
unfolding sentence_end
sentence_end-bounds chunk_size window [] n h = ground (arith, h)
sentence_end-bounds chunk_size window (sep ∷ seps) n h = elim (Option-cases (rfind sep window)) [
  | inl e ↦ sentence_end-bounds chunk_size window seps n (ground (arith, h, e))
  | inr (i, e) ↦ elim (Bool-cases (ltb (3 * chunk_size) (10 * i))) [
    | inl b ↦
        let at : i + length sep ≡ n = ground (arith, h, e, b) in
        let far = ltb→lt (3 * chunk_size) (10 * i) b in
        (omega (arith, at, far), omega (arith, at, rfind-fits sep window i e))
    | inr b ↦ sentence_end-bounds chunk_size window seps n (ground (arith, h, e, b))
  ]
]

after-bounds :
    (chunk_size start : ℕ) (window : Text) (o : Option ℕ)
    → length window ≤ chunk_size
    → 0 < chunk_size
    → o ≡ sentence_end chunk_size window separators
    → (10 * start + 3 * chunk_size < 10 * after start chunk_size o)
      × (after start chunk_size o ≤ start + chunk_size)
after-bounds chunk_size start window none l h e = (omega arith, omega arith)
after-bounds chunk_size start window (some n) l h e =
    let bounds = sentence_end-bounds chunk_size window separators n (sym e) in
    (omega (arith, bounds.0), omega (arith, bounds.1))

-- A chunk is no longer than the chunk size, and longer than three tenths of it.
pub cut_end-bounds :
    (chunk_size start : ℕ) (text : Text)
    → 0 < chunk_size
    → (10 * start + 3 * chunk_size < 10 * cut_end chunk_size start text)
      × (cut_end chunk_size start text ≤ start + chunk_size)
unfolding cut_end
cut_end-bounds chunk_size start text h =
    elim (Bool-cases (ltb (start + chunk_size) (length text))) [
      | inl e ↦ rw e (
          after-bounds chunk_size start (slice start (start + chunk_size) text) _
            (omega (arith, length-slice-le start (start + chunk_size) text)) h refl)
      | inr e ↦ rw e (omega arith, omega arith)
    ]

-- The next start lies past the last one, and no further than the cut and the text's end.
pub next_start-later :
    (chunk_size overlap start : ℕ) (text : Text)
    → 0 < chunk_size
    → 10 * overlap ≤ 3 * chunk_size
    → start < length text
    → (start < next_start chunk_size overlap start text)
      × ((next_start chunk_size overlap start text ≤ cut_end chunk_size start text)
          × ((next_start chunk_size overlap start text ≤ length text)
              × (ltb (cut_end chunk_size start text) overlap ≡ false)))
unfolding next_start
next_start-later chunk_size overlap start text h k l =
    let bounds = cut_end-bounds chunk_size start text h in
    (
      ground (arith, bounds.0, bounds.1),
      (ground (arith, bounds.0, bounds.1), (ground arith, ground (arith, bounds.0))),
    )
