-- ===== src/Knowledge/Processor/Outcomes.antt =====
-- When protoneo/knowledge/processor.py has a document, and which error it raises otherwise.
use protoneo.Prelude.{
  ℕ, String, ◌≡◌, refl, sym, ap, ◌∙◌, subst, inl, inr, Bool, true, false, not, ◌&&◌, ◌||◌, Option,
  none, some, some-injective, List, [], ◌∷◌, ◌++◌, arith, ◌=ℕ◌, if◌then◌else◌, Bool-cases, any,
  find, ◌==◌, find-passes, is_some, is_empty,
}
use protoneo.Agents.{Document}
use protoneo.Knowledge.Processor.{
  File, Parser, Processor, Processed, not_found, no_parser, processed, is_in, only_found, or_next,
  is_usable, preferred_parser, add_candidates, attempt, try_parsers, process,
}

any-snoc {ℓ} :
    {A : Type ℓ} (f : A → Bool) (xs : List A) (x : A) → any f (xs ++ x ∷ []) ≡ (any f xs || f x)
any-snoc f [] x = ground arith
any-snoc f (y ∷ ys) x = ground (arith, any-snoc f ys x)

pub in-any : (f : ℕ → Bool) (r : ℕ) (rs : List ℕ) → is_in r rs ≡ true → f r ≡ true → any f rs ≡ true
in-any f r [] h k = ground (arith, h)
in-any f r (q ∷ rs) h k = elim (Bool-cases (r =ℕ q)) [
  | inl e ↦
      let same : r ≡ q = ground (arith, e) in
      let here : f q ≡ true = subst (λ n. f n ≡ true) same k in ground (arith, here)
  | inr e ↦
      let later : is_in r rs ≡ true = ground (arith, h, e) in ground (arith, in-any f r rs later k)
]

pub find-any {ℓ} :
    {A : Type ℓ} (p g : A → Bool) (x : A) (xs : List A)
    → find p xs ≡ some x
    → g x ≡ true
    → any g xs ≡ true
find-any p g x [] h k = ground (arith, h)
find-any p g x (y ∷ ys) h k = elim (Bool-cases (p y)) [
  | inl e ↦
      let same : y ≡ x = some-injective y x (ground (arith, h, e)) in
      let here : g y ≡ true = subst (λ z. g z ≡ true) (sym same) k in ground (arith, here)
  | inr e ↦ ground (arith, find-any p g x ys (ground (arith, h, e)) k)
]

module _ (heap : ℕ → Parser) (ext : String) (f : ℕ → Bool) where
  -- Whether an entry is of a usable parser that passes the test.
  abbrev pub passes : ℕ × ℕ → Bool
  passes e = is_usable heap ext e.1 && f e.1

  one_more :
      (r : ℕ) (cs : List ℕ)
      → any f (if is_usable heap ext r && not (is_in r cs) then cs ++ r ∷ [] else cs)
        ≡ (any f cs || (is_usable heap ext r && f r))
  one_more r cs = elim (Bool-cases (is_in r cs)) [
    | inl e ↦ elim (Bool-cases (f r)) [
      | inl k ↦ ground (arith, e, k, in-any f r cs e k)
      | inr k ↦ ground (arith, e, k)
    ]
    | inr e ↦ ground (arith, e, any-snoc f cs r)
  ]

  add_candidates-any :
      (ps : List (ℕ × ℕ)) (cs : List ℕ)
      → any f (add_candidates heap ext ps cs) ≡ (any f cs || any passes ps)
  unfolding add_candidates
  add_candidates-any [] cs = ground arith
  add_candidates-any ((priority, r) ∷ ps) cs =
      let more = if is_usable heap ext r && not (is_in r cs) then cs ++ r ∷ [] else cs in
      let step : any f more ≡ (any f cs || (is_usable heap ext r && f r)) = one_more r cs in
      add_candidates-any ps more ∙ rw step (ground arith)

  found-any :
      (p : ℕ × ℕ → Bool) (ps : List (ℕ × ℕ)) (o : Option (ℕ × ℕ))
      → ((e : ℕ × ℕ) → p e ≡ true → is_usable heap ext e.1 ≡ true)
      → find p ps ≡ o
      → any f (only_found o) ≡ true
      → any passes ps ≡ true
  found-any p ps none u e h = ground (arith, h)
  found-any p ps (some x) u e h =
      let usable = u x (find-passes p x ps e) in
      find-any p passes x ps e (ground (arith, usable, h))

  preferred-any :
      (preferred : String) (ps : List (ℕ × ℕ))
      → any f (preferred_parser heap preferred ext ps) ≡ true
      → any passes ps ≡ true
  unfolding preferred_parser
  preferred-any preferred ps h = elim (Bool-cases (preferred == "")) [
    | inl e ↦ ground (arith, h, e)
    | inr e ↦
        found-any (λ x. (heap x.1).name == preferred && is_usable heap ext x.1) ps _
          (λ x k. ground (arith, k)) refl (ground (arith, h, e))
  ]

  -- Of the candidates one passes if and only if one of the registered usable parsers does.
  pub candidates-any :
      (preferred : String) (ps : List (ℕ × ℕ))
      → any f (add_candidates heap ext ps (preferred_parser heap preferred ext ps)) ≡ any passes ps
  candidates-any preferred ps =
      add_candidates-any ps (preferred_parser heap preferred ext ps)
      ∙ elim (Bool-cases (any f (preferred_parser heap preferred ext ps))) [
        | inl e ↦ ground (arith, e, preferred-any preferred ps e)
        | inr e ↦ ground (arith, e)
      ]

abbrev pub is_processed : Processed → Bool
is_processed (processed d) = true
is_processed _ = false

abbrev pub is_no_parser : Processed → Bool
is_no_parser no_parser = true
is_no_parser _ = false

abbrev pub is_not_found : Processed → Bool
is_not_found not_found = true
is_not_found _ = false

is_empty-any : (rs : List ℕ) → is_empty rs ≡ not (any (λ r. true) rs)
is_empty-any [] = refl
is_empty-any (r ∷ rs) = refl

-- An outcome that is a document just when `good` holds, and else a failure of all parsers.
abbrev Tried : (good : Bool) → Processed → Type 0
Tried good x = (is_processed x ≡ good) × ((is_no_parser x ≡ false) × (is_not_found x ≡ false))

next-outcome :
    (o : Option Document) (rest : Processed) (good : Bool)
    → Tried good rest
    → Tried (is_some o || good) (or_next o rest)
next-outcome none rest good h = h
next-outcome (some d) rest good h = (refl, (refl, refl))

module _ {ℓ} {A : Type ℓ} (p q : A → Bool) where
  any-both : (xs : List A) → any p xs ≡ false → any (λ x. p x && q x) xs ≡ false
  any-both [] h = refl
  any-both (x ∷ xs) h = ground (arith, any-both xs, h)

any-true {ℓ} : {A : Type ℓ} (p : A → Bool) (xs : List A) → any (λ x. p x && true) xs ≡ any p xs
any-true p [] = refl
any-true p (x ∷ xs) = ground (arith, any-true p xs)

chosen :
    (there empty usable good : Bool) (x : Processed)
    → empty ≡ not usable
    → (usable ≡ false → good ≡ false)
    → Tried good x
    → (is_processed (if not there then not_found else if empty then no_parser else x)
        ≡ (there && good))
      × ((is_no_parser (if not there then not_found else if empty then no_parser else x)
            ≡ (there && not usable))
          × (is_not_found (if not there then not_found else if empty then no_parser else x)
              ≡ not there))
chosen false empty usable good x e k t = (refl, (refl, refl))
chosen true true usable good x e k t =
    let unusable : usable ≡ false = ground arith in (sym (k unusable), (rw unusable refl, refl))
chosen true false usable good x e k t = (t.0, (t.1.0 ∙ e, t.1.1))

module _ (heap : ℕ → Parser) (s : Processor) (file : File) where
  abbrev pub succeeds : ℕ → Bool
  succeeds r = is_some (attempt heap s file r)

  try_parsers-outcome :
      (rs : List ℕ)
      → (is_processed (try_parsers heap s file rs) ≡ any succeeds rs)
        × ((is_no_parser (try_parsers heap s file rs) ≡ false)
            × (is_not_found (try_parsers heap s file rs) ≡ false))
  unfolding try_parsers
  try_parsers-outcome [] = (refl, (refl, refl))
  try_parsers-outcome (r ∷ rs) =
      next-outcome (attempt heap s file r) (try_parsers heap s file rs) (any succeeds rs)
        (try_parsers-outcome rs)

  -- A file that is there has a document if and only if some registered parser that is available takes
  -- its extension, parses it and is not stopped by a post-processor, whichever parser is preferred; it
  -- ends with the error that there is no parser if and only if no registered available parser takes the
  -- extension. A file that is not there, and no other, ends with the error that says so.
  pub process-outcome :
      (ext preferred : String)
      → (is_processed (process heap s file ext preferred)
          ≡ (file.on_disk && any (passes heap ext succeeds) s.parsers))
        × ((is_no_parser (process heap s file ext preferred)
              ≡ (file.on_disk && not (any (λ (e : ℕ × ℕ). is_usable heap ext e.1) s.parsers)))
            × (is_not_found (process heap s file ext preferred) ≡ not file.on_disk))
  unfolding process
  process-outcome ext preferred =
      let candidates =
        add_candidates heap ext s.parsers (preferred_parser heap preferred ext s.parsers) in
      let usable = λ (e : ℕ × ℕ). is_usable heap ext e.1 in
      chosen file.on_disk (is_empty candidates) (any usable s.parsers)
        (any (passes heap ext succeeds) s.parsers) (try_parsers heap s file candidates)
        (is_empty-any candidates
          ∙ ap not
              (candidates-any heap ext (λ r. true) preferred s.parsers ∙ any-true usable s.parsers))
        (any-both usable (λ e. succeeds e.1) s.parsers)
        (subst (λ b. Tried b (try_parsers heap s file candidates))
          (candidates-any heap ext succeeds preferred s.parsers) (try_parsers-outcome candidates))
