-- ===== src/Deliberation/RoundRobin/Ahead.antt =====
-- How a resumed discussion of RoundRobinPattern in protoneo/deliberation/patterns.py meets the saved
-- outputs: each turn finds its own.
use protoneo.Prelude.{
  ℕ, String, ◌≡◌, refl, sym, ◌∙◌, subst, inl, inr, Bool, true, false, Option, none, some,
  some-injective, List, [], ◌∷◌, arith, if◌then◌else◌, Option-cases, eq_iff, Fresh, Distinct,
}
use protoneo.Agents.{AgentOutput}
use protoneo.Deliberation.RoundRobin.{later_or, saved_at}
use protoneo.Deliberation.RoundRobin.Schedule.{Key, same_key, leading}

abbrev pub key_of : AgentOutput → Key
key_of o = (o.agent_id, o.round)

-- `Ahead done rest keys`: of the accepted outputs `done`, `rest` are still to be replayed, in the
-- coming turns `keys`, and the turns after them have no accepted output.
abbrev pub Ahead : List AgentOutput → List AgentOutput → List Key → Type 0
Ahead done [] [] = Unit
Ahead done (_ ∷ _) [] = ⊥
Ahead done [] ((id, n) ∷ keys) = (saved_at done id n ≡ none) × Ahead done [] keys
Ahead done (o ∷ rest) ((id, n) ∷ keys) = (saved_at done id n ≡ some o) × Ahead done rest keys

later_or-none : (o : Option AgentOutput) → later_or o none ≡ o
later_or-none (some o) = refl
later_or-none none = refl

saved_at-key :
    (os : List AgentOutput) (id : String) (n : ℕ) {o : AgentOutput}
    → saved_at os id n ≡ some o
    → same_key (key_of o) (id, n) ≡ true
unfolding saved_at
saved_at-key [] id n h = cc
saved_at-key (x ∷ os) id n {o} h = elim (Option-cases (saved_at os id n)) [
  | inl e ↦ only (same_key (key_of x) (id, n)) refl (rw (e) at h)
  | inr (l, e) ↦ saved_at-key os id n (e ∙ (rw e at h))
]
  where
    only :
        (b : Bool)
        → same_key (key_of x) (id, n) ≡ b
        → (if b then some x else none) ≡ some o
        → same_key (key_of o) (id, n) ≡ true
    only true e h = subst (λ y. same_key (key_of y) (id, n) ≡ true) (some-injective _ _ h) e
    only false e h = cc

-- A later output hides no earlier turn.
saved_at-cons :
    (o : AgentOutput) (os : List AgentOutput) (id : String) (n : ℕ)
    → same_key (key_of o) (id, n) ≡ false
    → saved_at (o ∷ os) id n ≡ saved_at os id n
unfolding saved_at
saved_at-cons o os id n h = rw h (later_or-none (saved_at os id n))

Ahead-cons :
    (o : AgentOutput) (os rest : List AgentOutput) (keys : List Key)
    → Fresh same_key (key_of o) keys
    → Ahead os rest keys
    → Ahead (o ∷ os) rest keys
Ahead-cons o os [] [] f h = h
Ahead-cons o os (_ ∷ _) [] f h = h
Ahead-cons o os [] ((id, n) ∷ keys) f h =
    (saved_at-cons o os id n f.0 ∙ h.0, Ahead-cons o os [] keys f.1 h.1)
Ahead-cons o os (r ∷ rest) ((id, n) ∷ keys) f h =
    (saved_at-cons o os id n f.0 ∙ h.0, Ahead-cons o os rest keys f.1 h.1)

Ahead-nil : (keys : List Key) → Ahead [] [] keys
unfolding saved_at
Ahead-nil [] = tt
Ahead-nil ((id, n) ∷ keys) = (refl, Ahead-nil keys)

same_key→eq : (a b : Key) → same_key a b ≡ true → a ≡ b
same_key→eq (id, n) (j, m) h = ground (arith, eq_iff id j)

same_key_sym : (a b : Key) → same_key a b ≡ false → same_key b a ≡ false
same_key_sym (id, n) (j, m) h = ground (arith, eq_iff id j, eq_iff j id)

-- No output is found for a turn outside the list.
saved_at-leading :
    (saved : List AgentOutput) (keys : List Key) (id : String) (n : ℕ)
    → Fresh same_key (id, n) keys
    → saved_at (leading saved keys) id n ≡ none
unfolding saved_at
saved_at-leading saved [] id n f = refl
saved_at-leading saved ((j, m) ∷ keys) id n f = elim (Option-cases (saved_at saved j m)) [
  | inl e ↦ rw e
  | inr (o, e) ↦
      let k : key_of o ≡ (j, m) = same_key→eq _ _ (saved_at-key saved j m e) in
      let other : same_key (key_of o) (id, n) ≡ false =
        subst (λ x. same_key x (id, n) ≡ false) (sym k) (same_key_sym (id, n) (j, m) f.0) in
      rw (e, saved_at-leading saved keys id n f.1, other)
]

same_key_refl : (k : Key) → same_key k k ≡ true
same_key_refl (id, n) = ground (arith, eq_iff id id)

head_found :
    (o : AgentOutput) (os : List AgentOutput) (id : String) (n : ℕ)
    → key_of o ≡ (id, n)
    → saved_at os id n ≡ none
    → saved_at (o ∷ os) id n ≡ some o
unfolding saved_at
head_found o os id n k h =
    let found : same_key (key_of o) (id, n) ≡ true =
      subst (λ x. same_key (key_of o) x ≡ true) k (same_key_refl (key_of o)) in
    rw (h, found)

-- The outputs found for distinct turns are ahead of themselves: each turn finds its own output.
pub Ahead-leading :
    (saved : List AgentOutput) (keys : List Key)
    → Distinct same_key keys
    → Ahead (leading saved keys) (leading saved keys) keys
Ahead-leading saved [] d = tt
Ahead-leading saved ((id, n) ∷ keys) d = elim (Option-cases (saved_at saved id n)) [
  | inl e ↦ rw e (Ahead-nil ((id, n) ∷ keys))
  | inr (o, e) ↦
      rw e (found o (same_key→eq _ _ (saved_at-key saved id n e)) (Ahead-leading saved keys d.1))
]
  where
    os : List AgentOutput
    os = leading saved keys

    found :
        (o : AgentOutput)
        → key_of o ≡ (id, n)
        → Ahead os os keys
        → Ahead (o ∷ os) (o ∷ os) ((id, n) ∷ keys)
    found o k h = (
      head_found o os id n k (saved_at-leading saved keys id n d.0),
      Ahead-cons o os os keys (subst (λ x. Fresh same_key x keys) (sym k) d.0) h,
    )
