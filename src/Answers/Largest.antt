-- ===== src/Answers/Largest.antt =====
-- Which of the parts of a text protoneo/llm/structured.py takes for its JSON value.
use protoneo.Prelude.{◌≤◌, ◌≡◌, ◌⊎◌, true, Option, none, some, List, [], ◌∷◌, length, All, is_some}
use protoneo.Json.{Json}
use protoneo.Answers.{Text, Host, Best}
use protoneo.Answers.Parts.{value_in}

-- One of the elements has the property.
abbrev pub Exists {ℓ} : {A : Type ℓ} → (A → Type 0) → List A → Type 0
Exists P [] = ⊥
Exists P (x ∷ xs) = P x ⊎ Exists P xs

module _ (host : Host) where
  -- The candidate has the value and the size of the best.
  abbrev Source : Best → Text × Text → Type 0
  Source best p =
      (is_some best.value ≡ true) × ((value_in host p.1 ≡ best.value) × (length p.1 ≡ best.size))

module _ (host : Host) (pieces : List (Text × Text)) where
  -- No candidate has a value; or the value is that of a candidate, and no candidate with a value is
  -- longer than that one.
  abbrev pub Chosen : Option Json → Type 0
  Chosen none = All (λ p. value_in host p.1 ≡ none) pieces
  Chosen (some v) =
      Exists
        (λ p.
          (value_in host p.1 ≡ some v)
          × All (λ q. is_some (value_in host q.1) ≡ true → length q.1 ≤ length p.1) pieces)
        pieces
