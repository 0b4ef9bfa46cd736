-- ===== src/Deliberation/Engine/Saved.antt =====
-- The phases that a resumed run of protoneo/deliberation/engine.py finds in a saved result.
use protoneo.Prelude.{
  String, ◌≡◌, refl, sym, ap, ◌∙◌, subst, inl, inr, Bool, true, false, Option, none, some,
  some-injective, List, [], ◌∷◌, map, arith, Bool-cases, keep, get_last?, All, ◌==◌, eq_iff,
  eq_refl, Distinct,
}
use protoneo.Deliberation.Types.{PhaseResult}
use protoneo.Deliberation.Config.{PhaseConfig}
use protoneo.Deliberation.Engine.{saved_phase, phase_or_new}

keep-holds {ℓ} : {A : Type ℓ} (p : A → Bool) (xs : List A) → All (λ x. p x ≡ true) (keep p xs)
keep-holds p [] = tt
keep-holds p (x ∷ xs) = elim (Bool-cases (p x)) [
  | inl e ↦ rw e (e, keep-holds p xs)
  | inr e ↦ rw e (keep-holds p xs)
]

get_last?-All {ℓ κ} :
    {A : Type ℓ} (P : A → Type κ) (xs : List A) (x : A) → All P xs → get_last? xs ≡ some x → P x
get_last?-All P [] x h e = ground arith
get_last?-All P (y ∷ []) x h e = subst P (some-injective _ _ e) h.0
get_last?-All P (y ∷ z ∷ xs) x h e = get_last?-All P (z ∷ xs) x h.1 e

-- The phase that the loop finds for a configured phase.
abbrev pub found_phase : List PhaseResult → PhaseConfig → PhaseResult
found_phase restored c = phase_or_new c (saved_phase c.name restored)

pub found_phase-name :
    (restored : List PhaseResult) (c : PhaseConfig) → (found_phase restored c).phase_name ≡ c.name
unfolding saved_phase
found_phase-name restored c = by_search _ refl
  where
    by_search :
        (o : Option PhaseResult)
        → get_last? (keep (λ p. p.phase_name == c.name) restored) ≡ o
        → (phase_or_new c o).phase_name ≡ c.name
    by_search none e = refl
    by_search (some p) e = (eq_iff p.phase_name c.name).0 (
        get_last?-All (λ (q : PhaseResult). (q.phase_name == c.name) ≡ true) _ p
          (keep-holds (λ (q : PhaseResult). q.phase_name == c.name) restored) e)

abbrev pub same_name : PhaseResult → PhaseResult → Bool
same_name p q = p.phase_name == q.phase_name

keep_fresh :
    (p : PhaseResult) (qs : List PhaseResult)
    → All (λ q. same_name p q ≡ false) qs
    → keep (λ q. q.phase_name == p.phase_name) qs ≡ []
keep_fresh p [] h = refl
keep_fresh p (q ∷ qs) h = ground (
  arith,
  h.0,
  keep_fresh p qs h.1,
  eq_iff p.phase_name q.phase_name,
  eq_iff q.phase_name p.phase_name,
)

saved_phase-skips :
    (p q : PhaseResult) (ps : List PhaseResult)
    → same_name p q ≡ false
    → saved_phase q.phase_name ps ≡ some q
    → saved_phase q.phase_name (p ∷ ps) ≡ some q
unfolding saved_phase
saved_phase-skips p q ps apart h = rw apart h

saved_elsewhere :
    (p : PhaseResult) (ps qs : List PhaseResult)
    → All (λ q. same_name p q ≡ false) qs
    → All (λ q. saved_phase q.phase_name ps ≡ some q) qs
    → All (λ q. saved_phase q.phase_name (p ∷ ps) ≡ some q) qs
saved_elsewhere p ps [] apart h = tt
saved_elsewhere p ps (q ∷ qs) apart h =
    (saved_phase-skips p q ps apart.0 h.0, saved_elsewhere p ps qs apart.1 h.1)

-- Of results with distinct names each is found by its name.
pub saved_phase-Distinct :
    (ps : List PhaseResult)
    → Distinct same_name ps
    → All (λ p. saved_phase p.phase_name ps ≡ some p) ps
unfolding saved_phase
saved_phase-Distinct [] d = tt
saved_phase-Distinct (p ∷ ps) d = (
  rw (eq_refl p.phase_name, keep_fresh p ps d.0) refl,
  saved_elsewhere p ps ps d.0 (saved_phase-Distinct ps d.1),
)

abbrev first_name : List String → String
first_name [] = ""
first_name (n ∷ ns) = n

abbrev names_after : List String → List String
names_after [] = []
names_after (n ∷ ns) = ns

pub found_phase-saved :
    (saved : List PhaseResult) (cs : List PhaseConfig) (ps : List PhaseResult)
    → map PhaseResult.phase_name ps ≡ map PhaseConfig.name cs
    → All (λ p. saved_phase p.phase_name saved ≡ some p) ps
    → map (found_phase saved) cs ≡ ps
found_phase-saved saved [] [] e h = refl
found_phase-saved saved [] (p ∷ ps) e h = ground (arith, e)
found_phase-saved saved (c ∷ cs) [] e h = ground (arith, e)
found_phase-saved saved (c ∷ cs) (p ∷ ps) e h =
    let name : p.phase_name ≡ c.name = ap first_name e in
    let here : saved_phase c.name saved ≡ some p = ap (λ n. saved_phase n saved) (sym name) ∙ h.0 in
    ap (λ o. phase_or_new c o ∷ map (found_phase saved) cs) here
    ∙ ap (λ rest. p ∷ rest) (found_phase-saved saved cs ps (ap names_after e) h.1)
