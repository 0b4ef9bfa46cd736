-- ===== src/Prelude/Unique.antt =====
-- Lists without repetitions under a test of sameness, and the list updates that keep them so.
use mathlib.Core.Path.{◌≡◌}
use mathlib.Core.Logic.{inl, inr}
use mathlib.Core.Bool.{Bool, false}
use mathlib.Core.List.{List, [], ◌∷◌, ◌++◌}
use mathlib.Core.Option.{none}
use native.Mathlib.Omega.{arith}
use protoneo.Prelude.Tests.{if◌then◌else◌, Bool-cases}
use protoneo.Prelude.Lists.{keep, find, All, All-append, All-keep}

module _ {ℓ} {A : Type ℓ} where
  -- The first element that passes is changed.
  abbrev pub change_first : (A → Bool) → (A → A) → List A → List A
  change_first p f [] = []
  change_first p f (x ∷ xs) = let rest = change_first p f xs in if p x then f x ∷ xs else x ∷ rest

  -- The first element that passes is removed.
  abbrev pub remove_first : (A → Bool) → List A → List A
  remove_first p [] = []
  remove_first p (x ∷ xs) = let rest = remove_first p xs in if p x then xs else x ∷ rest

module _ {ℓ} {A : Type ℓ} (same : A → A → Bool) where
  abbrev pub Fresh : A → List A → Type 0
  Fresh x xs = All (λ y. same x y ≡ false) xs

  abbrev pub Distinct : List A → Type ℓ
  Distinct [] = Unit
  Distinct (x ∷ xs) = Fresh x xs × Distinct xs

module _ {ℓ κ} {A : Type ℓ} (P : A → Type κ) where
  pub All-change_first :
      (p : A → Bool) (f : A → A) (xs : List A)
      → ((x : A) → P x → P (f x))
      → All P xs
      → All P (change_first p f xs)
  All-change_first p f [] k h = tt
  All-change_first p f (x ∷ xs) k h = elim (Bool-cases (p x)) [
    | inl e ↦ rw e (k x h.0, h.1)
    | inr e ↦ rw e (h.0, All-change_first p f xs k h.1)
  ]

  pub All-remove_first : (p : A → Bool) (xs : List A) → All P xs → All P (remove_first p xs)
  All-remove_first p [] h = tt
  All-remove_first p (x ∷ xs) h = elim (Bool-cases (p x)) [
    | inl e ↦ rw e h.1
    | inr e ↦ rw e (h.0, All-remove_first p xs h.1)
  ]

pub find-none {ℓ} :
    {A : Type ℓ} (p : A → Bool) (xs : List A) → find p xs ≡ none → All (λ x. p x ≡ false) xs
find-none p [] h = tt
find-none p (x ∷ xs) h = elim (Bool-cases (p x)) [
  | inl e ↦ ground (arith, e)
  | inr e ↦ (e, find-none p xs (ground (arith, e)))
]

module _ {ℓ} {A : Type ℓ} (same : A → A → Bool) where
  pub Distinct-keep : (p : A → Bool) (xs : List A) → Distinct same xs → Distinct same (keep p xs)
  Distinct-keep p [] d = tt
  Distinct-keep p (x ∷ xs) d = elim (Bool-cases (p x)) [
    | inl e ↦ rw e (All-keep (λ y. same x y ≡ false) p xs d.0, Distinct-keep p xs d.1)
    | inr e ↦ rw e (Distinct-keep p xs d.1)
  ]

  pub Distinct-remove_first :
      (p : A → Bool) (xs : List A) → Distinct same xs → Distinct same (remove_first p xs)
  Distinct-remove_first p [] d = tt
  Distinct-remove_first p (x ∷ xs) d = elim (Bool-cases (p x)) [
    | inl e ↦ rw e d.1
    | inr e ↦
        rw e (All-remove_first (λ y. same x y ≡ false) p xs d.0, Distinct-remove_first p xs d.1)
  ]

  pub Distinct-snoc :
      (xs : List A) (y : A)
      → All (λ x. same x y ≡ false) xs
      → Distinct same xs
      → Distinct same (xs ++ y ∷ [])
  Distinct-snoc [] y h d = (tt, tt)
  Distinct-snoc (x ∷ xs) y h d =
      (All-append (λ z. same x z ≡ false) xs (y ∷ []) d.0 (h.0, tt), Distinct-snoc xs y h.1 d.1)

  -- A change that no test sees.
  pub Distinct-change_first :
      (p : A → Bool) (f : A → A) (xs : List A)
      → ((x y : A) → same x (f y) ≡ same x y)
      → ((x y : A) → same (f x) y ≡ same x y)
      → Distinct same xs
      → Distinct same (change_first p f xs)
  Distinct-change_first p f [] right left d = tt
  Distinct-change_first p f (x ∷ xs) right left d = elim (Bool-cases (p x)) [
    | inl e ↦ rw e (changed xs d.0, d.1)
    | inr e ↦ rw e (
      All-change_first (λ y. same x y ≡ false) p f xs (λ y h. rw (right x y) h) d.0,
      Distinct-change_first p f xs right left d.1,
    )
  ]
    where
      changed : (ys : List A) → Fresh same x ys → Fresh same (f x) ys
      changed [] h = tt
      changed (y ∷ ys) h = (rw (left x y) h.0, changed ys h.1)
