-- ===== src/Prelude/Entries.antt =====
-- What holds of every entry of a dictionary, and what a look-up gives of it.
use Prim.Native.String.{String}
use mathlib.Core.Path.{◌≡◌, subst}
use mathlib.Core.Logic.{inl, inr}
use mathlib.Core.Bool.{Bool, true}
use mathlib.Core.List.{List, [], ◌∷◌}
use mathlib.Core.Option.{some, some-injective}
use native.Mathlib.Omega.{arith}
use protoneo.Prelude.Tests.{Bool-cases}
use protoneo.Prelude.Lists.{All, All-append, find, keep}
use protoneo.Prelude.Texts.{◌==◌, eq_iff}
use protoneo.Prelude.Dicts.{get_at, put_at, append_at, list_at}

module _ {ℓ κ} {A : Type ℓ} (P : String → A → Type κ) where
  pub All-put_at :
      (key : String) (x : A) (d : List (String × A))
      → P key x
      → All (λ e. P e.0 e.1) d
      → All (λ e. P e.0 e.1) (put_at key x d)
  unfolding put_at
  All-put_at key x [] p h = (p, tt)
  All-put_at key x ((k, y) ∷ d) p h = elim (Bool-cases (k == key)) [
    | inl e ↦ rw e (p, h.1)
    | inr e ↦ rw e (h.0, All-put_at key x d p h.1)
  ]

  pub get_at-All :
      (key : String) (x : A) (d : List (String × A))
      → All (λ e. P e.0 e.1) d
      → get_at key d ≡ some x
      → P key x
  unfolding get_at
  get_at-All key x [] h g = ground (arith, g)
  get_at-All key x ((k, y) ∷ d) h g = elim (Bool-cases (k == key)) [
    | inl e ↦
        let same : y ≡ x = some-injective y x (ground (arith, g, e)) in
        subst (λ z. P key z) same (subst (λ j. P j y) ((eq_iff k key).0 e) h.0)
    | inr e ↦ get_at-All key x d h.1 (ground (arith, g, e))
  ]

  pub All-append_at :
      (key : String) (x : A) (d : List (String × List A))
      → P key x
      → All (λ e. All (P e.0) e.1) d
      → All (λ e. All (P e.0) e.1) (append_at key x d)
  unfolding append_at
  All-append_at key x [] p h = ((p, tt), tt)
  All-append_at key x ((k, ys) ∷ d) p h = elim (Bool-cases (k == key)) [
    | inl e ↦ rw e (
      All-append (P key) ys (x ∷ []) (subst (λ j. All (P j) ys) ((eq_iff k key).0 e) h.0) (p, tt),
      h.1,
    )
    | inr e ↦ rw e (h.0, All-append_at key x d p h.1)
  ]

  pub list_at-All :
      (key : String) (d : List (String × List A))
      → All (λ e. All (P e.0) e.1) d
      → All (P key) (list_at key d)
  unfolding list_at
  list_at-All key [] h = tt
  list_at-All key ((k, ys) ∷ d) h = elim (Bool-cases (k == key)) [
    | inl e ↦ rw e (subst (λ j. All (P j) ys) ((eq_iff k key).0 e) h.0)
    | inr e ↦ rw e (list_at-All key d h.1)
  ]

module _ {ℓ κ} {A : Type ℓ} (P : A → Type κ) where
  -- What holds of all holds of the one found, which passes the test.
  pub find-All :
      (p : A → Bool) (x : A) (xs : List A) → All P xs → find p xs ≡ some x → P x × (p x ≡ true)
  find-All p x [] h g = ground (arith, g)
  find-All p x (y ∷ ys) h g = elim (Bool-cases (p y)) [
    | inl e ↦
        let same : y ≡ x = some-injective y x (ground (arith, g, e)) in
        subst (λ z. P z × (p z ≡ true)) same (h.0, e)
    | inr e ↦ find-All p x ys h.1 (ground (arith, g, e))
  ]

pub keep-passes {ℓ} : {A : Type ℓ} (p : A → Bool) (xs : List A) → All (λ x. p x ≡ true) (keep p xs)
keep-passes p [] = tt
keep-passes p (x ∷ xs) = elim (Bool-cases (p x)) [
  | inl e ↦ rw e (e, keep-passes p xs)
  | inr e ↦ rw e (keep-passes p xs)
]

every {ℓ} : {A : Type ℓ} (xs : List A) → All (λ x. Unit {0}) xs
every [] = tt
every (x ∷ xs) = (tt, every xs)

pub find-passes {ℓ} :
    {A : Type ℓ} (p : A → Bool) (x : A) (xs : List A) → find p xs ≡ some x → p x ≡ true
find-passes p x xs h = (find-All (λ y. Unit {0}) p x xs (every xs) h).1
