-- ===== src/Models/Registry/Found.antt =====
-- The models that protoneo/llm/registry.py finds for the policies of protoneo/llm/policies.py.
use protoneo.Prelude.{◌≡◌, refl, false, some, List, [], ◌∷◌, arith, keep, values}
use protoneo.Models.{ModelInfo}
use protoneo.Models.Policies.{Policy, reasons_against, evaluate_model_for_policy}
use protoneo.Models.Policies.Refusals.{missing-empty}
use protoneo.Models.Registry.{Store, has_all, find_models}

module _ (p : Policy) where
  has_all-hard_ok :
      (m : ModelInfo)
      → has_all p.required m.capabilities ≡ (evaluate_model_for_policy (some false) p m).hard_ok
  unfolding evaluate_model_for_policy reasons_against
  has_all-hard_ok m = ground (arith, missing-empty p.required m.capabilities)

  keep-hard_ok :
      (ms : List ModelInfo)
      → keep (λ m. has_all p.required m.capabilities) ms
        ≡ keep (λ m. (evaluate_model_for_policy (some false) p m).hard_ok) ms
  keep-hard_ok [] = refl
  keep-hard_ok (m ∷ ms) = rw (has_all-hard_ok m, keep-hard_ok ms) refl

  -- The models that the registry finds for the capabilities that a policy requires are, in their order,
  -- those that pass the policy's hard requirements where no local model is asked for.
  pub find_models-hard_ok :
      (s : Store)
      → find_models p.required s
        ≡ keep (λ m. (evaluate_model_for_policy (some false) p m).hard_ok) (values s.models)
  unfolding find_models
  find_models-hard_ok s = keep-hard_ok (values s.models)
