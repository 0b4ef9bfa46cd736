-- ===== src/Deliberation/Visible/Limits.antt =====
-- What an agent sees in a discussion, by `discussion_prompt` of protoneo/deliberation/policy.py.
use protoneo.Prelude.{
  ◌-◌, ◌≤◌, String, ◌≡◌, refl, ap, inl, inr, Bool, true, false, not, ◌||◌, List, [], ◌∷◌, ◌++◌,
  arith, Bool-cases, length, keep, All, length-drop, length-keep-le, All-append, All-keep, All-map,
  All-drop, ◌==◌, eq_iff,
}
use protoneo.Agents.{AgentOutput}
use protoneo.Session.Context.{Outputs}
use protoneo.Deliberation.Visible.{is_turn, last_two, shown_of, shown_outputs}

keep-none {ℓ} :
    {A : Type ℓ} (p : A → Bool) (xs : List A) → All (λ x. p x ≡ false) xs → keep p xs ≡ []
keep-none p [] h = refl
keep-none p (x ∷ xs) h = rw h.0 (keep-none p xs h.1)

keep-append {ℓ} :
    {A : Type ℓ} (p : A → Bool) (xs ys : List A) → keep p (xs ++ ys) ≡ keep p xs ++ keep p ys
keep-append p [] ys = refl
keep-append p (x ∷ xs) ys = elim (Bool-cases (p x)) [
  | inl e ↦ rw e (ap (λ r. x ∷ r) (keep-append p xs ys))
  | inr e ↦ rw e (keep-append p xs ys)
]

keep-passes {ℓ} : {A : Type ℓ} (p : A → Bool) (xs : List A) → All (λ x. p x ≡ true) (keep p xs)
keep-passes p [] = tt
keep-passes p (x ∷ xs) = elim (Bool-cases (p x)) [
  | inl e ↦ rw e (e, keep-passes p xs)
  | inr e ↦ rw e (keep-passes p xs)
]

last_two-length : (xs : List AgentOutput) → length (last_two xs) ≤ 2
unfolding last_two
last_two-length xs = omega (arith, length-drop (length xs - 2) xs)

turns-initial : (xs : List AgentOutput) → keep is_turn (keep (λ o. not (is_turn o)) xs) ≡ []
turns-initial xs = keep-none is_turn _ (
    All-map (λ o. not (is_turn o) ≡ true) (λ o. is_turn o ≡ false) _ (λ o h. ground arith)
      (keep-passes (λ o. not (is_turn o)) xs))

-- Of one agent at most two turns are shown, whatever it has said before.
pub shown_of-turns :
    (blind : Bool) (id : String) (outputs : List AgentOutput)
    → length (keep is_turn (shown_of blind id outputs)) ≤ 2
unfolding shown_of
shown_of-turns blind id outputs =
    let visible = keep (λ o. not blind || o.agent_id == id) outputs in
    let initial = keep (λ o. not (is_turn o)) visible in
    let recent = last_two (keep is_turn visible) in
    rw (keep-append is_turn initial recent, turns-initial visible)
      (omega (arith, length-keep-le is_turn recent, last_two-length (keep is_turn visible)))

own_shown :
    (id : String) (outputs : List AgentOutput)
    → All (λ o. o.agent_id ≡ id) (shown_of true id outputs)
unfolding shown_of last_two
own_shown id outputs =
    let visible = keep (λ (o : AgentOutput). o.agent_id == id) outputs in
    let own =
      All-map (λ (o : AgentOutput). (o.agent_id == id) ≡ true) (λ o. o.agent_id ≡ id) visible
        (λ o h. (eq_iff o.agent_id id).0 h)
        (keep-passes (λ (o : AgentOutput). o.agent_id == id) outputs) in
    All-append (λ (o : AgentOutput). o.agent_id ≡ id) _ _
      (All-keep (λ (o : AgentOutput). o.agent_id ≡ id) (λ o. not (is_turn o)) visible own)
      (All-drop (λ (o : AgentOutput). o.agent_id ≡ id) _ _
        (All-keep (λ (o : AgentOutput). o.agent_id ≡ id) is_turn visible own))

-- In a blind discussion an agent is shown no output but its own.
pub shown_outputs-blind :
    (id : String) (d : Outputs) → All (λ o. o.agent_id ≡ id) (shown_outputs true id d)
unfolding shown_outputs
shown_outputs-blind id [] = tt
shown_outputs-blind id ((k, os) ∷ rest) =
    All-append (λ (o : AgentOutput). o.agent_id ≡ id) _ _ (own_shown id os)
      (shown_outputs-blind id rest)
