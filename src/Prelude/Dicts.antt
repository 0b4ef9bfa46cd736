-- ===== src/Prelude/Dicts.antt =====
-- Dictionaries with text keys, as lists of entries in the order of their insertion.
use Prim.Native.String.{String}
use mathlib.Core.Path.{◌≡◌, refl}
use mathlib.Core.List.{List, [], ◌∷◌, ◌++◌, map}
use mathlib.Core.Option.{Option, none, some}
use native.Mathlib.Omega.{arith}
use protoneo.Prelude.Tests.{if◌then◌else◌}
use protoneo.Prelude.Texts.{◌==◌, eq_iff}

module _ {ℓ} {A : Type ℓ} where
  -- `d.get(key)`
  unfoldable pub get_at : String → List (String × A) → Option A
  get_at key [] = none
  get_at key ((k, x) ∷ d) = let rest = get_at key d in if k == key then some x else rest

  -- `d[key] = x`: a key keeps its place.
  unfoldable pub put_at : String → A → List (String × A) → List (String × A)
  put_at key x [] = (key, x) ∷ []
  put_at key x ((k, y) ∷ d) =
      let rest = put_at key x d in if k == key then (key, x) ∷ d else (k, y) ∷ rest

  -- `d[key].append(x)` on a `defaultdict(list)`, and `d.get(key, [])`
  unfoldable pub append_at : String → A → List (String × List A) → List (String × List A)
  append_at key x [] = (key, x ∷ []) ∷ []
  append_at key x ((k, ys) ∷ d) =
      let rest = append_at key x d in if k == key then (key, ys ++ x ∷ []) ∷ d else (k, ys) ∷ rest

  unfoldable pub list_at : String → List (String × List A) → List A
  list_at key [] = []
  list_at key ((k, ys) ∷ d) = let rest = list_at key d in if k == key then ys else rest

  -- `list(d.values())`
  abbrev pub values : List (String × A) → List A
  values d = map (λ (e : String × A). e.1) d

  pub get_at-put_at :
      (key j : String) (x : A) (d : List (String × A))
      → get_at j (put_at key x d) ≡ (if key == j then some x else get_at j d)
  unfolding get_at put_at
  get_at-put_at key j x [] = refl
  get_at-put_at key j x ((k, y) ∷ d) =
      ground (arith, get_at-put_at key j x d, eq_iff k key, eq_iff k j, eq_iff key j)

  pub list_at-append_at :
      (key j : String) (x : A) (d : List (String × List A))
      → list_at j (append_at key x d) ≡ (if key == j then list_at j d ++ x ∷ [] else list_at j d)
  unfolding list_at append_at
  list_at-append_at key j x [] = refl
  list_at-append_at key j x ((k, ys) ∷ d) =
      ground (arith, list_at-append_at key j x d, eq_iff k key, eq_iff k j, eq_iff key j)
