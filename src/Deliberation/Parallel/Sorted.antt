-- ===== src/Deliberation/Parallel/Sorted.antt =====
-- The stable sort with which ParallelPattern of protoneo/deliberation/patterns.py puts the outputs
-- into the participants' order.
use protoneo.Prelude.{
  ℕ, ◌≤◌, ◌≡◌, refl, sym, ap, ◌∙◌, subst, inl, inr, false, List, [], ◌∷◌, arith, leb, ◌=ℕ◌,
  if◌then◌else◌, leb→le, not_leb→lt, Bool-cases, drop, keep, All, All-map,
}
use protoneo.Deliberation.Parallel.{insert_by, sort_by}

module _ {A : Type 0} (key : A → ℕ) where
  -- No key is smaller than the one before it.
  abbrev pub Ascending : List A → Type 0
  Ascending [] = Unit
  Ascending (x ∷ xs) = All (λ y. key x ≤ key y) xs × Ascending xs

  insert_by-All :
      (P : A → Type 0) (x : A) (ys : List A) → P x → All P ys → All P (insert_by key x ys)
  unfolding insert_by
  insert_by-All P x [] h hs = (h, tt)
  insert_by-All P x (y ∷ ys) h hs = elim (Bool-cases (leb (key x) (key y))) [
    | inl e ↦ rw e (h, hs)
    | inr e ↦ rw e (hs.0, insert_by-All P x ys h hs.1)
  ]

  insert_by-Ascending : (x : A) (ys : List A) → Ascending ys → Ascending (insert_by key x ys)
  unfolding insert_by
  insert_by-Ascending x [] h = (tt, tt)
  insert_by-Ascending x (y ∷ ys) h = elim (Bool-cases (leb (key x) (key y))) [
    | inl e ↦
        let le = leb→le (key x) (key y) e in
        rw e (
          (
            le,
            All-map (λ z. key y ≤ key z) (λ z. key x ≤ key z) ys (λ z k. omega (arith, le, k)) h.0,
          ),
          h,
        )
    | inr e ↦
        let lt = not_leb→lt (key x) (key y) e in
        rw e (
          insert_by-All (λ z. key y ≤ key z) x ys (omega (arith, lt)) h.0,
          insert_by-Ascending x ys h.1,
        )
  ]

  pub sort_by-Ascending : (xs : List A) → Ascending (sort_by key xs)
  unfolding sort_by
  sort_by-Ascending [] = tt
  sort_by-Ascending (x ∷ xs) = insert_by-Ascending x (sort_by key xs) (sort_by-Ascending xs)

  -- The elements with this key.
  abbrev pub at_key : ℕ → List A → List A
  at_key k xs = keep (λ x. key x =ℕ k) xs

  at_key-insert_by :
      (k : ℕ) (x : A) (ys : List A)
      → at_key k (insert_by key x ys) ≡ (if key x =ℕ k then x ∷ at_key k ys else at_key k ys)
  unfolding insert_by
  at_key-insert_by k x [] = refl
  at_key-insert_by k x (y ∷ ys) = ground (arith, at_key-insert_by k x ys)

  -- Elements with the same key keep their order, and none is lost.
  pub at_key-sort_by : (k : ℕ) (xs : List A) → at_key k (sort_by key xs) ≡ at_key k xs
  unfolding sort_by
  at_key-sort_by k [] = refl
  at_key-sort_by k (x ∷ xs) =
      at_key-insert_by k x (sort_by key xs)
      ∙ ap (λ r. if key x =ℕ k then x ∷ r else r) (at_key-sort_by k xs)

  -- A lower bound of the keys bounds the key of an element.
  bounded :
      (b k : ℕ) (ys : List A) (x : A) (r : List A)
      → All (λ y. b ≤ key y) ys
      → at_key k ys ≡ x ∷ r
      → b ≤ k
  bounded b k [] x r h e = ground arith
  bounded b k (y ∷ ys) x r h e = elim (Bool-cases (key y =ℕ k)) [
    | inl t ↦ ground arith
    | inr t ↦ bounded b k ys x r h.1 (rw t at e)
  ]

  at_key-head : (x : A) (xs : List A) → at_key (key x) (x ∷ xs) ≡ x ∷ at_key (key x) xs
  at_key-head x xs = ground arith

  abbrev head_or : A → List A → A
  head_or d [] = d
  head_or d (x ∷ xs) = x

  -- Lists with the same elements of each key, and heads of the same key.
  same_heads :
      (x y : A) (xs ys : List A)
      → key x ≡ key y
      → ((k : ℕ) → at_key k (x ∷ xs) ≡ at_key k (y ∷ ys))
      → x ∷ at_key (key x) xs ≡ y ∷ at_key (key x) ys
  same_heads x y xs ys same e =
      sym (at_key-head x xs)
      ∙ e (key x)
      ∙ subst (λ k. at_key k (y ∷ ys) ≡ y ∷ at_key k ys) (sym same) (at_key-head y ys)

  same_tails :
      (x y : A) (xs ys : List A)
      → key x ≡ key y
      → ((k : ℕ) → at_key k (x ∷ xs) ≡ at_key k (y ∷ ys))
      → (k : ℕ) → at_key k xs ≡ at_key k ys
  same_tails x y xs ys same e k = elim (Bool-cases (key x =ℕ k)) [
    | inl i ↦
        subst (λ j. at_key j xs ≡ at_key j ys) (ground arith)
          (ap (drop 1) (same_heads x y xs ys same e))
    | inr i ↦ let j = subst (λ n. (n =ℕ k) ≡ false) same i in rw (i, j) at (e k)
  ]

  same_keys :
      (x y : A) (xs ys : List A)
      → Ascending (x ∷ xs)
      → Ascending (y ∷ ys)
      → ((k : ℕ) → at_key k (x ∷ xs) ≡ at_key k (y ∷ ys))
      → key x ≡ key y
  same_keys x y xs ys hx hy e =
      let above =
        bounded (key x) (key y) (x ∷ xs) y (at_key (key y) ys) (omega arith, hx.0)
          (e (key y) ∙ at_key-head y ys) in
      let below =
        bounded (key y) (key x) (y ∷ ys) x (at_key (key x) xs) (omega arith, hy.0)
          (sym (e (key x)) ∙ at_key-head x xs) in
      omega (arith, above, below)

  -- An ascending list is determined by its elements of each key.
  Ascending-unique :
      (xs ys : List A)
      → Ascending xs
      → Ascending ys
      → ((k : ℕ) → at_key k xs ≡ at_key k ys)
      → xs ≡ ys
  Ascending-unique [] [] hx hy e = refl
  Ascending-unique [] (y ∷ ys) hx hy e = ground (arith, e (key y) ∙ at_key-head y ys)
  Ascending-unique (x ∷ xs) [] hx hy e = ground (arith, sym (at_key-head x xs) ∙ e (key x))
  Ascending-unique (x ∷ xs) (y ∷ ys) hx hy e =
      let same = same_keys x y xs ys hx hy e in
      rw
        (
          ap (head_or x) (same_heads x y xs ys same e),
          Ascending-unique xs ys hx.1 hy.1 (same_tails x y xs ys same e),
        )
        refl

  -- Two orders of completion that give each position the same elements in the same order are sorted
  -- into the same list.
  pub sort_by_unique :
      (xs ys : List A) → ((k : ℕ) → at_key k xs ≡ at_key k ys) → sort_by key xs ≡ sort_by key ys
  sort_by_unique xs ys e =
      Ascending-unique (sort_by key xs) (sort_by key ys) (sort_by-Ascending xs)
        (sort_by-Ascending ys) (λ k. at_key-sort_by k xs ∙ e k ∙ sym (at_key-sort_by k ys))
