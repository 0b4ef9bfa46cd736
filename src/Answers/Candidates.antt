-- ===== src/Answers/Candidates.antt =====
-- The parts of a text that protoneo/llm/structured.py tries as JSON values.
use protoneo.Prelude.{
  ℕ, ◌+◌, ◌≤◌, ◌<◌, ◌≡◌, refl, sym, ap, subst, inl, inr, Bool, true, false, not, ◌&&◌, Option, none,
  some, [], ◌∷◌, ◌++◌, arith, ◌=ℕ◌, if◌then◌else◌, Bool-cases, length, take, All, length-drop,
  take-append-drop,
}
use protoneo.Answers.{
  Text, add_one, depth_after, is_last, scan, from_opening, split_at, candidate_at, next_candidate,
}

-- How often a bracket stands in the text outside its strings; `in_string` and `escape` are the state in
-- which the text begins.
unfoldable pub outside : (bracket : ℕ) → Text → (in_string escape : Bool) → ℕ
outside k [] in_string escape = 0
outside k (c ∷ t) true true = outside k t true false
outside k (c ∷ t) true false = outside k t (not (c =ℕ 34)) (c =ℕ 92)
outside k (c ∷ t) false escape =
    (if not (c =ℕ 34) && c =ℕ k then 1 else 0) + outside k t (c =ℕ 34) escape

-- The part begins with the opening bracket, and has as many closing ones.
abbrev pub Candidate : (opening closing : ℕ) → Text → Type 0
Candidate opening closing part =
    ((body : Text) × (part ≡ opening ∷ body))
    × (outside opening part false false ≡ outside closing part false false)

module _ (opening closing : ℕ) where
  -- What is taken closes as many brackets as it opens and as were open, and lies in the text.
  abbrev pub Closes : (depth : ℕ) → (in_string escape : Bool) → Text → Option ℕ → Type 0
  Closes depth in_string escape text none = Unit
  Closes depth in_string escape text (some n) =
      (depth + outside opening (take n text) in_string escape
        ≡ outside closing (take n text) in_string escape)
      × ((0 < n) × (n ≤ length text))

  escaped-Closes :
      (c : ℕ) (t : Text) (depth : ℕ) (o : Option ℕ)
      → Closes depth true false t o
      → Closes depth true true (c ∷ t) (add_one o)
  unfolding outside
  escaped-Closes c t depth none h = tt
  escaped-Closes c t depth (some n) h = (h.0, (omega arith, omega (arith, h.1.1)))

  string-Closes :
      (c : ℕ) (t : Text) (depth : ℕ) (o : Option ℕ)
      → Closes depth (not (c =ℕ 34)) (c =ℕ 92) t o
      → Closes depth true false (c ∷ t) (add_one o)
  unfolding outside
  string-Closes c t depth none h = tt
  string-Closes c t depth (some n) h = (h.0, (omega arith, omega (arith, h.1.1)))

  plain-Closes :
      (c : ℕ) (t : Text) (depth : ℕ) (escape : Bool) (o : Option ℕ)
      → (opening =ℕ closing) ≡ false
      → 0 < depth
      → is_last opening closing c depth ≡ false
      → Closes (depth_after opening closing c depth) (c =ℕ 34) escape t o
      → Closes depth false escape (c ∷ t) (add_one o)
  unfolding outside
  plain-Closes c t depth escape none apart h l k = tt
  plain-Closes c t depth escape (some n) apart h l k =
      (ground (arith, k.0), (omega arith, omega (arith, k.1.1)))

  last-Closes :
      (c : ℕ) (t : Text) (depth : ℕ) (escape : Bool)
      → is_last opening closing c depth ≡ true
      → Closes depth false escape (c ∷ t) (some 1)
  unfolding outside
  last-Closes c t depth escape l = (ground arith, (omega arith, omega arith))

  scan-Closes :
      (text : Text) (depth : ℕ) (in_string escape : Bool)
      → (opening =ℕ closing) ≡ false
      → 0 < depth
      → Closes depth in_string escape text (scan opening closing text depth in_string escape)
  unfolding scan
  scan-Closes [] depth in_string escape apart h = tt
  scan-Closes (c ∷ t) depth true true apart h =
      escaped-Closes c t depth _ (scan-Closes t depth true false apart h)
  scan-Closes (c ∷ t) depth true false apart h =
      string-Closes c t depth _ (scan-Closes t depth (not (c =ℕ 34)) (c =ℕ 92) apart h)
  scan-Closes (c ∷ t) depth false escape apart h =
      elim (Bool-cases (is_last opening closing c depth)) [
        | inl l ↦ rw l (last-Closes c t depth escape l)
        | inr l ↦
            let later : 0 < depth_after opening closing c depth = ground arith in
            rw l (
              plain-Closes c t depth escape _ apart h l
                (scan-Closes t (depth_after opening closing c depth) (c =ℕ 34) escape apart later))
      ]

  -- Where the first code point is an opening bracket, what is taken is a candidate.
  abbrev pub Splits : Text → Option (Text × Text) → Type 0
  Splits text none = Unit
  Splits text (some (part, after)) =
      (junk : Text) × ((text ≡ junk ++ (part ++ after))
        × ((All (λ c. (c =ℕ opening) ≡ false) junk)
            × (Candidate opening closing part × (length after < length text))))

  start-outside :
      (bracket : ℕ) (t : Text)
      → (opening =ℕ 34) ≡ false
      → outside bracket (opening ∷ t) false false
        ≡ (if opening =ℕ bracket then 1 else 0) + outside bracket t false false
  unfolding outside
  start-outside bracket t plain = rw plain refl

  start-scan :
      (t : Text)
      → (opening =ℕ closing) ≡ false
      → (opening =ℕ 34) ≡ false
      → scan opening closing (opening ∷ t) 0 false false
        ≡ add_one (scan opening closing t 1 false false)
  unfolding scan
  start-scan t apart plain =
      let not_last : is_last opening closing opening 0 ≡ false = ground arith in
      let one : depth_after opening closing opening 0 ≡ 1 = ground (arith, plain) in
      rw (not_last, one, plain) refl

  started :
      (t : Text) (o : Option ℕ)
      → (opening =ℕ closing) ≡ false
      → (opening =ℕ 34) ≡ false
      → Closes 1 false false t o
      → Splits (opening ∷ t) (split_at (add_one o) (opening ∷ t))
  started t none apart plain h = tt
  started t (some m) apart plain h = (
    [],
    (
      ap (λ r. opening ∷ r) (sym (take-append-drop m t)),
      (
        tt,
        (
          (
            (take m t, refl),
            ground (
              arith,
              start-outside opening (take m t) plain,
              start-outside closing (take m t) plain,
              h.0,
              apart,
            ),
          ),
          omega (arith, length-drop m t),
        ),
      ),
    ),
  )

  start-Splits :
      (t : Text)
      → (opening =ℕ closing) ≡ false
      → (opening =ℕ 34) ≡ false
      → Splits
          (opening ∷ t)
          (split_at (scan opening closing (opening ∷ t) 0 false false) (opening ∷ t))
  start-Splits t apart plain = rw (start-scan t apart plain) (
      started t (scan opening closing t 1 false false) apart plain
        (scan-Closes t 1 false false apart (omega arith)))

  later-Splits :
      (c : ℕ) (text : Text) (o : Option (Text × Text))
      → (c =ℕ opening) ≡ false
      → Splits text o
      → Splits (c ∷ text) o
  later-Splits c text none e h = tt
  later-Splits c text (some (part, after)) e h =
      (c ∷ h.0, (ap (λ r. c ∷ r) h.1.0, ((e, h.1.1.0), (h.1.1.1.0, omega (arith, h.1.1.1.1)))))

  from-here :
      (c : ℕ) (text : Text)
      → (c =ℕ opening) ≡ true
      → from_opening opening (c ∷ text) ≡ some (opening ∷ text)
  unfolding from_opening
  from-here c text e =
      let same : c ≡ opening = ground (arith, e) in rw e (ap (λ d. some (d ∷ text)) same)

  from-later :
      (c : ℕ) (text : Text)
      → (c =ℕ opening) ≡ false
      → from_opening opening (c ∷ text) ≡ from_opening opening text
  unfolding from_opening
  from-later c text e = rw e refl

  -- The next candidate of a text stands in it behind a part without opening brackets.
  pub next_candidate-Splits :
      (text : Text)
      → (opening =ℕ closing) ≡ false
      → (opening =ℕ 34) ≡ false
      → Splits text (next_candidate opening closing text)
  unfolding next_candidate
  next_candidate-Splits [] apart plain = unfold from_opening in tt
  next_candidate-Splits (c ∷ text) apart plain = elim (Bool-cases (c =ℕ opening)) [
    | inl e ↦
        let same : opening ≡ c = ground (arith, e) in
        subst (λ o. Splits (c ∷ text) (candidate_at opening closing o)) (sym (from-here c text e))
          (subst
            (λ d.
              Splits (d ∷ text)
                (split_at (scan opening closing (opening ∷ text) 0 false false) (opening ∷ text)))
            same (start-Splits text apart plain))
    | inr e ↦
        subst (λ o. Splits (c ∷ text) (candidate_at opening closing o)) (sym (from-later c text e))
          (later-Splits c text (next_candidate opening closing text) e
            (next_candidate-Splits text apart plain))
  ]
