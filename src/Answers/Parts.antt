-- ===== src/Answers/Parts.antt =====
-- How protoneo/llm/structured.py takes a text apart into candidates.
use protoneo.Prelude.{
  ℕ, zero, suc, ◌<◌, ◌≡◌, refl, ap, ◌∙◌, subst, inl, inr, false, Option, none, some, List, [], ◌∷◌,
  ◌++◌, arith, ◌=ℕ◌, Option-cases, length, All,
}
use protoneo.Json.{Json}
use protoneo.Answers.{Text, Host, next_candidate, Best, not_null, better, extract_balanced}
use protoneo.Answers.Candidates.{Candidate, Splits, next_candidate-Splits}

-- A text in pieces, each with what stands before a candidate and the candidate, and in the rest.
abbrev pub joined : List (Text × Text) → Text → Text
joined [] tail = tail
joined ((junk, part) ∷ pieces) tail = junk ++ (part ++ joined pieces tail)

abbrev pub Pieces : (opening closing : ℕ) → List (Text × Text) → Type 0
Pieces opening closing pieces =
    All (λ p. (All (λ c. (c =ℕ opening) ≡ false) p.0) × Candidate opening closing p.1) pieces

module _ (host : Host) where
  abbrev pub value_in : Text → Option Json
  value_in part = not_null (host.loads part)

  abbrev pub best_of : List (Text × Text) → Best → Best
  best_of [] best = best
  best_of ((junk, part) ∷ pieces) best = best_of pieces (better (value_in part) (length part) best)

  module _ (opening closing : ℕ) where
    -- The loop gives the best of the candidates that the text is made of.
    abbrev pub Parted : Text → Best → Option Best → Type 0
    Parted text best result =
        (pieces : List (Text × Text)) × ((tail : Text) × ((text ≡ joined pieces tail)
            × (Pieces opening closing pieces
                × ((next_candidate opening closing tail ≡ none)
                    × (result ≡ some (best_of pieces best))))))

    pub extract-Parted :
        (fuel : ℕ) (text : Text) (best : Best)
        → (opening =ℕ closing) ≡ false
        → (opening =ℕ 34) ≡ false
        → length text < fuel
        → Parted text best (extract_balanced host opening closing fuel text best)
    unfolding extract_balanced
    extract-Parted zero text best apart plain f = ground arith
    extract-Parted (suc fuel) text best apart plain f =
        elim (Option-cases (next_candidate opening closing text)) [
          | inl e ↦ rw e ([], (text, (refl, (tt, (e, refl)))))
          | inr ((part, after), e) ↦
              let split : Splits opening closing text (some (part, after)) =
                subst (Splits opening closing text) e
                  (next_candidate-Splits opening closing text apart plain) in
              let rest =
                extract-Parted fuel after (better (value_in part) (length part) best) apart plain
                  (omega (arith, split.1.1.1.1)) in
              rw e (
                (split.0, part) ∷ rest.0,
                (
                  rest.1.0,
                  (
                    split.1.0 ∙ ap (λ t. split.0 ++ (part ++ t)) rest.1.1.0,
                    (
                      ((split.1.1.0, split.1.1.1.0), rest.1.1.1.0),
                      (rest.1.1.1.1.0, rest.1.1.1.1.1),
                    ),
                  ),
                ),
              )
        ]
