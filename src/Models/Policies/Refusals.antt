-- ===== src/Models/Policies/Refusals.antt =====
-- Which models protoneo/llm/policies.py refuses.
use protoneo.Prelude.{
  ◌≡◌, refl, sym, ◌∙◌, ◌↔◌, Bool, true, not, ◌&&◌, Option, none, some, List, [], ◌∷◌, map, arith,
  keep, all, is_empty,
}
use protoneo.Models.{
  Capability, vision, structured_output, function_calling, streaming, extended_thinking,
  reasoning_control, is_local, Capabilities, every_capability, capability_value, ModelInfo,
}
use protoneo.Models.Policies.{Policy, missing, reasons_against, evaluate_model_for_policy}

keep-empty {ℓ} :
    {A : Type ℓ} (p : A → Bool) (xs : List A) → is_empty (keep p xs) ≡ all (λ x. not (p x)) xs
keep-empty p [] = refl
keep-empty p (x ∷ xs) = ground (arith, keep-empty p xs)

map-empty {ℓ κ} :
    {A : Type ℓ} {B : Type κ} (f : A → B) (xs : List A) → is_empty (map f xs) ≡ is_empty xs
map-empty f [] = refl
map-empty f (x ∷ xs) = refl

all-every_capability :
    (p : Capability → Bool) (c : Capability) → all p every_capability ≡ true → p c ≡ true
all-every_capability p vision h = ground arith
all-every_capability p structured_output h = ground arith
all-every_capability p function_calling h = ground arith
all-every_capability p streaming h = ground arith
all-every_capability p extended_thinking h = ground arith
all-every_capability p reasoning_control h = ground arith

every-all :
    (p : Capability → Bool) → ((c : Capability) → p c ≡ true) → all p every_capability ≡ true
every-all p h = ground (
  arith,
  h vision,
  h structured_output,
  h function_calling,
  h streaming,
  h extended_thinking,
  h reasoning_control,
)

pub missing-empty :
    (required have : Capabilities)
    → is_empty (missing required have)
      ≡ all (λ c. not (required c && not (have c))) every_capability
unfolding missing
missing-empty required have =
    map-empty capability_value (keep (λ c. required c && not (have c)) every_capability)
    ∙ keep-empty (λ c. required c && not (have c)) every_capability

-- A model has all that the policy requires, and is local where that is asked.
abbrev pub Admits : (local_required : Bool) → Policy → ModelInfo → Type 0
Admits local_required p m =
    ((c : Capability) → p.required c ≡ true → m.capabilities c ≡ true)
    × (local_required ≡ true → is_local m.tier ≡ true)

abbrev pub local_asked : Option Bool → Policy → Bool
local_asked none p = p.require_local
local_asked (some b) p = b

hard_ok-eq :
    (asked : Option Bool) (p : Policy) (m : ModelInfo)
    → (evaluate_model_for_policy asked p m).hard_ok ≡ (
        is_empty (missing p.required m.capabilities)
        && not (local_asked asked p && not (is_local m.tier)))
unfolding evaluate_model_for_policy reasons_against
hard_ok-eq none p m = ground arith
hard_ok-eq (some b) p m = ground arith

hard_ok-Admits :
    (asked : Option Bool) (p : Policy) (m : ModelInfo)
    → (evaluate_model_for_policy asked p m).hard_ok ≡ true
    → Admits (local_asked asked p) p m
hard_ok-Admits asked p m h =
    let lacks : is_empty (missing p.required m.capabilities) ≡ true =
      ground (arith, hard_ok-eq asked p m) in
    let none_missing = sym (missing-empty p.required m.capabilities) ∙ lacks in
    (
      λ c r. ground (
        arith,
        r,
        all-every_capability (λ d. not (p.required d && not (m.capabilities d))) c none_missing,
      ),
      λ l. ground (arith, l, hard_ok-eq asked p m),
    )

Admits-hard_ok :
    (asked : Option Bool) (p : Policy) (m : ModelInfo)
    → Admits (local_asked asked p) p m
    → (evaluate_model_for_policy asked p m).hard_ok ≡ true
Admits-hard_ok asked p m h =
    let lacks =
      every-all (λ d. not (p.required d && not (m.capabilities d))) (λ c. ground (arith, h.0 c)) in
    ground (arith, hard_ok-eq asked p m, missing-empty p.required m.capabilities, lacks, h.1)

-- A model passes a policy's hard requirements if and only if it has every required capability and,
-- where the caller or else the policy asks for a local model, is local.
pub evaluate-Admits :
    (asked : Option Bool) (p : Policy) (m : ModelInfo)
    → ((evaluate_model_for_policy asked p m).hard_ok ≡ true) ↔ Admits (local_asked asked p) p m
evaluate-Admits asked p m = (hard_ok-Admits asked p m, Admits-hard_ok asked p m)
