-- ===== src/Models/Registry/Ids.antt =====
-- The ids of models in protoneo/llm/registry.py, with the provider's name before them and without.
use protoneo.Prelude.{
  String, ◌≡◌, sym, ap, ◌∙◌, subst, inl, inr, true, false, Bool-cases, if-true, if-false,
}
use protoneo.Models.Registry.Entries.{prefixed_model_id, raw_model_id}
use Prim.Native.String.{len, slice, ◌++◌ as ◌+s◌}
use text.Mathlib.Text.{starts_with}
use text.Mathlib.TextPositions.{len-append, slice-append_right, starts_with-append}
use text.Mathlib.TextLemmas.{append_assoc as texts_assoc}

slice-after : (s t : String) → slice (s +s t) (len s) (len (s +s t)) ≡ t
slice-after s t =
    subst (λ n. slice (s +s t) (len s) n ≡ t) (sym (len-append s t)) (slice-append_right s t)

raw-joined : (provider id : String) → raw_model_id provider ((provider +s "/") +s id) ≡ id
unfolding raw_model_id
raw-joined provider id =
    rw (starts_with-append (provider +s "/") id) (slice-after (provider +s "/") id)

has_prefix :
    (provider id : String)
    → starts_with id (provider +s "/") ≡ true
    → prefixed_model_id provider id ≡ id
unfolding prefixed_model_id
has_prefix provider id e = if-true (starts_with id (provider +s "/")) id (provider +s "/" +s id) e

gets_prefix :
    (provider id : String)
    → starts_with id (provider +s "/") ≡ false
    → prefixed_model_id provider id ≡ (provider +s "/") +s id
unfolding prefixed_model_id
gets_prefix provider id e =
    if-false (starts_with id (provider +s "/")) id (provider +s "/" +s id) e
    ∙ sym (texts_assoc provider "/" id)

raw-bare :
    (provider id : String)
    → starts_with id (provider +s "/") ≡ false
    → raw_model_id provider id ≡ id
unfolding raw_model_id
raw-bare provider id e =
    if-false (starts_with id (provider +s "/")) (slice id (len (provider +s "/")) (len id)) id e

-- To put the provider's name before an id changes nothing of what stands after that name, also where
-- the name stands there already.
pub raw-prefixed :
    (provider id : String)
    → raw_model_id provider (prefixed_model_id provider id) ≡ raw_model_id provider id
raw-prefixed provider id = elim (Bool-cases (starts_with id (provider +s "/"))) [
  | inl e ↦ ap (raw_model_id provider) (has_prefix provider id e)
  | inr e ↦
      ap (raw_model_id provider) (gets_prefix provider id e)
      ∙ (raw-joined provider id ∙ sym (raw-bare provider id e))
]
