-- ===== src/Knowledge/Processor/Priorities.antt =====
-- Which of the parsers of protoneo/knowledge/processor.py reads a file.
use protoneo.Prelude.{
  ℕ, ◌≤◌, String, ◌≡◌, refl, sym, ap, ◌∙◌, subst, inl, inr, Bool, true, not, ◌&&◌, Option, none,
  some, some-injective, List, [], ◌∷◌, ◌++◌, arith, leb, ◌=ℕ◌, if◌then◌else◌, leb→le, not_leb→lt,
  Bool-cases, Option-cases, any, find, All, All-map, find-passes, is_some, is_empty, first_of,
}
use protoneo.Agents.{Document}
use protoneo.Knowledge.Processor.{
  File, Parser, Processor, insert_parser, sort_parsers, register_parser, Processed, all_failed,
  processed, is_in, or_next, is_usable, preferred_parser, add_candidates, attempt, try_parsers,
  process,
}
use protoneo.Knowledge.Processor.Outcomes.{in-any, find-any, passes, succeeds}

-- No priority is greater than the one before it.
abbrev pub Descending : List (ℕ × ℕ) → Type 0
Descending [] = Unit
Descending (x ∷ xs) = All (λ y. y.0 ≤ x.0) xs × Descending xs

insert_parser-All :
    (P : ℕ × ℕ → Type 0) (x : ℕ × ℕ) (ys : List (ℕ × ℕ))
    → P x
    → All P ys
    → All P (insert_parser x ys)
unfolding insert_parser
insert_parser-All P x [] h hs = (h, tt)
insert_parser-All P x (y ∷ ys) h hs = elim (Bool-cases (leb y.0 x.0)) [
  | inl e ↦ rw e (h, hs)
  | inr e ↦ rw e (hs.0, insert_parser-All P x ys h hs.1)
]

insert_parser-Descending :
    (x : ℕ × ℕ) (ys : List (ℕ × ℕ)) → Descending ys → Descending (insert_parser x ys)
unfolding insert_parser
insert_parser-Descending x [] h = (tt, tt)
insert_parser-Descending x (y ∷ ys) h = elim (Bool-cases (leb y.0 x.0)) [
  | inl e ↦
      let le = leb→le y.0 x.0 e in
      rw e ((le, All-map (λ z. z.0 ≤ y.0) (λ z. z.0 ≤ x.0) ys (λ z k. omega (arith, le, k)) h.0), h)
  | inr e ↦
      let lt = not_leb→lt y.0 x.0 e in
      rw e (
        insert_parser-All (λ z. z.0 ≤ y.0) x ys (omega (arith, lt)) h.0,
        insert_parser-Descending x ys h.1,
      )
]

sort_parsers-Descending : (xs : List (ℕ × ℕ)) → Descending (sort_parsers xs)
unfolding sort_parsers
sort_parsers-Descending [] = tt
sort_parsers-Descending (x ∷ xs) =
    insert_parser-Descending x (sort_parsers xs) (sort_parsers-Descending xs)

pub register_parser-Descending :
    (parser priority : ℕ) (s : Processor) → Descending (register_parser parser priority s).parsers
unfolding register_parser
register_parser-Descending parser priority s =
    sort_parsers-Descending (s.parsers ++ (priority, parser) ∷ [])

find-is_some {ℓ} : {A : Type ℓ} (p : A → Bool) (xs : List A) → is_some (find p xs) ≡ any p xs
find-is_some p [] = refl
find-is_some p (x ∷ xs) = ground (arith, find-is_some p xs)

find-snoc {ℓ} :
    {A : Type ℓ} (p : A → Bool) (xs : List A) (x : A)
    → find p (xs ++ x ∷ []) ≡ first_of (find p xs) (if p x then some x else none)
find-snoc p [] x = refl
find-snoc p (y ∷ ys) x = elim (Bool-cases (p y)) [
  | inl e ↦ rw e refl
  | inr e ↦ rw e (find-snoc p ys x)
]

-- The parser of the entry found.
abbrev parser_of : Option (ℕ × ℕ) → Option ℕ
parser_of none = none
parser_of (some e) = some e.1

first_of-none {ℓ} : {A : Type ℓ} (o : Option A) → first_of o none ≡ o
first_of-none none = refl
first_of-none (some x) = refl

first_of-known {ℓ} : {A : Type ℓ} (o p : Option A) → is_some o ≡ true → first_of o p ≡ o
first_of-known none p h = ground (arith, h)
first_of-known (some x) p h = refl

first_of_assoc {ℓ} :
    {A : Type ℓ} (a b c : Option A) → first_of (first_of a b) c ≡ first_of a (first_of b c)
first_of_assoc none b c = refl
first_of_assoc (some x) b c = refl

module _ (heap : ℕ → Parser) (ext : String) (f : ℕ → Bool) where
  in-known : (r : ℕ) (cs : List ℕ) → is_in r cs ≡ true → f r ≡ true → is_some (find f cs) ≡ true
  in-known r cs h k = find-is_some f cs ∙ in-any f r cs h k

  find-one_more :
      (r : ℕ) (cs : List ℕ)
      → find f (if is_usable heap ext r && not (is_in r cs) then cs ++ r ∷ [] else cs)
        ≡ first_of (find f cs) (if is_usable heap ext r && f r then some r else none)
  find-one_more r cs = elim (Bool-cases (is_usable heap ext r)) [
    | inr u ↦ rw u (sym (first_of-none (find f cs)))
    | inl u ↦ elim (Bool-cases (is_in r cs)) [
      | inr e ↦ rw (u, e) (find-snoc f cs r)
      | inl e ↦ elim (Bool-cases (f r)) [
        | inl k ↦ rw (u, e, k) (sym (first_of-known (find f cs) (some r) (in-known r cs e k)))
        | inr k ↦ rw (u, e, k) (sym (first_of-none (find f cs)))
      ]
    ]
  ]

  find-entry :
      (priority r : ℕ) (ps : List (ℕ × ℕ))
      → first_of
          (if is_usable heap ext r && f r then some r else none)
          (parser_of (find (passes heap ext f) ps))
        ≡ parser_of (find (passes heap ext f) ((priority, r) ∷ ps))
  find-entry priority r ps = elim (Bool-cases (is_usable heap ext r && f r)) [
    | inl e ↦ rw e refl
    | inr e ↦ rw e refl
  ]

  -- The first candidate that passes is the first registered usable parser that does.
  add_candidates-find :
      (ps : List (ℕ × ℕ)) (cs : List ℕ)
      → find f (add_candidates heap ext ps cs)
        ≡ first_of (find f cs) (parser_of (find (passes heap ext f) ps))
  unfolding add_candidates
  add_candidates-find [] cs = sym (first_of-none (find f cs))
  add_candidates-find ((priority, r) ∷ ps) cs =
      add_candidates-find ps (if is_usable heap ext r && not (is_in r cs) then cs ++ r ∷ [] else cs)
      ∙ (ap (λ o. first_of o (parser_of (find (passes heap ext f) ps))) (find-one_more r cs)
          ∙ (first_of_assoc (find f cs) _ (parser_of (find (passes heap ext f) ps))
              ∙ ap (first_of (find f cs)) (find-entry priority r ps)))

-- In descending order the first entry that passes has the highest priority of those that do.
find-highest :
    (p : ℕ × ℕ → Bool) (x : ℕ × ℕ) (es : List (ℕ × ℕ))
    → Descending es
    → find p es ≡ some x
    → All (λ e. p e ≡ true → e.0 ≤ x.0) es
find-highest p x [] d h = tt
find-highest p x (e ∷ es) d h = elim (Bool-cases (p e)) [
  | inl k ↦
      let same : e ≡ x = some-injective e x (ground (arith, h, k)) in
      subst (λ y. All (λ z. p z ≡ true → z.0 ≤ y.0) (e ∷ es)) same
        (
          λ t. omega arith,
          All-map (λ z. z.0 ≤ e.0) (λ z. p z ≡ true → z.0 ≤ e.0) es (λ z l t. l) d.0,
        )
  | inr k ↦ (λ t. ground (arith, t, k), find-highest p x es d.1 (ground (arith, h, k)))
]

abbrev document_in : Processed → Option Document
document_in (processed d) = some d
document_in _ = none

or_next-document :
    (o : Option Document) (d : Document) → or_next o all_failed ≡ processed d → o ≡ some d
or_next-document none d h = ap document_in h
or_next-document (some c) d h = ap document_in h

module _ (heap : ℕ → Parser) (s : Processor) (file : File) where
  -- The outcome of the parser found, if there is one.
  abbrev outcome_of : Option ℕ → Processed
  outcome_of none = all_failed
  outcome_of (some r) = or_next (attempt heap s file r) all_failed

  try_parsers-find :
      (rs : List ℕ) → try_parsers heap s file rs ≡ outcome_of (find (succeeds heap s file) rs)
  unfolding try_parsers
  try_parsers-find [] = refl
  try_parsers-find (r ∷ rs) = elim (Option-cases (attempt heap s file r)) [
    | inl e ↦ rw e (try_parsers-find rs)
    | inr (d, e) ↦ rw (e, e) refl
  ]

  document_of :
      (o : Option (ℕ × ℕ)) (d : Document)
      → outcome_of (parser_of o) ≡ processed d
      → (e : ℕ × ℕ) × ((o ≡ some e) × (attempt heap s file e.1 ≡ some d))
  document_of none d h = ground (arith, ap document_in h)
  document_of (some e) d h = (e, (refl, or_next-document (attempt heap s file e.1) d h))

  tried :
      (ext : String) (d : Document)
      → process heap s file ext "" ≡ processed d
      → try_parsers heap s file (add_candidates heap ext s.parsers []) ≡ processed d
  unfolding process preferred_parser
  tried ext d h = elim (Bool-cases file.on_disk) [
    | inl e ↦ elim (Bool-cases (is_empty (add_candidates heap ext s.parsers []))) [
      | inl k ↦ ground (arith, ap document_in h, e, k)
      | inr k ↦ ground (arith, h, e, k)
    ]
    | inr e ↦ ground (arith, ap document_in h, e)
  ]

  -- Where no parser is preferred and the parsers stand in descending priority, as every registration
  -- leaves them, the document is one that a registered usable parser makes of the file, and no
  -- registered usable parser that has a document for it has a higher priority.
  pub process-highest :
      (ext : String) (d : Document)
      → Descending s.parsers
      → process heap s file ext "" ≡ processed d
      → (e : ℕ × ℕ) × ((is_usable heap ext e.1 ≡ true)
          × ((attempt heap s file e.1 ≡ some d)
              × ((any (λ (x : ℕ × ℕ). x.0 =ℕ e.0 && x.1 =ℕ e.1) s.parsers ≡ true)
                  × All
                      (λ x. (is_usable heap ext x.1 && succeeds heap s file x.1) ≡ true → x.0 ≤ e.0)
                      s.parsers)))
  process-highest ext d sorted h =
      let found = document_of (find (passes heap ext (succeeds heap s file)) s.parsers) d (
        sym (
          try_parsers-find (add_candidates heap ext s.parsers [])
          ∙ ap outcome_of (add_candidates-find heap ext (succeeds heap s file) s.parsers []))
        ∙ tried ext d h) in
      let e = found.0 in
      let passed = find-passes (passes heap ext (succeeds heap s file)) e s.parsers found.1.0 in
      (
        e,
        (
          ground (arith, passed),
          (
            found.1.1,
            (
              find-any (passes heap ext (succeeds heap s file)) (λ x. x.0 =ℕ e.0 && x.1 =ℕ e.1) e
                  s.parsers found.1.0 (ground arith),
              find-highest (passes heap ext (succeeds heap s file)) e s.parsers sorted found.1.0,
            ),
          ),
        ),
      )
