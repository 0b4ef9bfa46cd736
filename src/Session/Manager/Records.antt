-- ===== src/Session/Manager/Records.antt =====
-- What SessionManager of protoneo/deliberation/session.py keeps in its files.
use protoneo.Prelude.{
  ℕ, ◌+◌, min, max, String, ◌≡◌, refl, ap, ◌∙◌, inl, inr, Bool, false, not, some, List, [], ◌∷◌,
  arith, if◌then◌else◌, Bool-cases, Option-cases, if-true, length, keep, All, length-take, ◌==◌,
  eq_iff, eq_refl, Distinct, Distinct-keep, get_at, put_at, get_at-put_at,
}
use protoneo.Session.Manager.{
  Codec, Store, is_valid_id, with_context, or_new, get_context, loaded, list_sessions, list_batches,
  save,
}

module _ {A : Type 0} where
  abbrev pub same_file : (String × A) → (String × A) → Bool
  same_file f h = f.0 == h.0

  pub get_at-keep :
      (id j : String) (files : List (String × A))
      → (id == j) ≡ false
      → get_at j (keep (λ f. not (f.0 == id)) files) ≡ get_at j files
  unfolding get_at
  get_at-keep id j [] h = refl
  get_at-keep id j ((k, a) ∷ files) h =
      ground (arith, get_at-keep id j files h, eq_iff k id, eq_iff k j, eq_iff id j)

  pub get_at-saved :
      (id j : String) (a : A) (files : List (String × A))
      → get_at j ((id, a) ∷ keep (λ f. not (f.0 == id)) files)
        ≡ (if id == j then some a else get_at j files)
  unfolding get_at
  get_at-saved id j a files = elim (Bool-cases (id == j)) [
    | inl e ↦ rw e refl
    | inr e ↦ rw e (get_at-keep id j files e)
  ]

  others_differ :
      (id : String) (files : List (String × A))
      → All (λ f. (id == f.0) ≡ false) (keep (λ f. not (f.0 == id)) files)
  others_differ id [] = tt
  others_differ id (f ∷ files) = elim (Bool-cases (f.0 == id)) [
    | inl e ↦ rw e (others_differ id files)
    | inr e ↦ rw e (ground (arith, eq_iff id f.0, eq_iff f.0 id), others_differ id files)
  ]

module _ {A : Type 0} (codec : Codec A) (is_plain : String → Bool) where
  -- A record has one file: a save replaces the earlier one, and a refused save changes nothing.
  pub save-Distinct :
      (id : String) (a : A) (s : Store)
      → Distinct same_file s.files
      → Distinct same_file (save codec is_plain id a s).1.files
  unfolding save
  save-Distinct id a s h = elim (Bool-cases (is_valid_id is_plain id)) [
    | inl e ↦
        rw e (others_differ id s.files, Distinct-keep same_file (λ f. not (f.0 == id)) s.files h)
    | inr e ↦ rw e h
  ]

-- A session has one context: asking for it again gives the same one and changes nothing.
pub get_context_again :
    (id : String) (s : Store) → get_context id (get_context id s).1 ≡ get_context id s
unfolding get_context with_context
get_context_again id s = elim (Option-cases (get_at id s.contexts)) [
  | inl e ↦
      let again : get_at id (put_at id (length s.heap) s.contexts) ≡ some (length s.heap) =
        get_at-put_at id id (length s.heap) s.contexts ∙ if-true (id == id) _ _ (eq_refl id) in
      rw e (ap (λ o. or_new id o (with_context id s)) again)
  | inr (r, e) ↦ rw (e, e) refl
]

-- Without a limit all readable sessions are listed, and with one no more than it says; batches are
-- limited too, but a limit of 0 still gives one, if there is any.
pub lists_limited :
    {A : Type 0} (codec : Codec A) (limit : ℕ) (s : Store)
    → (list_sessions codec 0 s ≡ loaded codec s.files)
      × (length (list_sessions codec (limit + 1) s)
          ≡ min (limit + 1) (length (loaded codec s.files)))
      × (length (list_batches codec 0 s) ≡ min 1 (length (loaded codec s.files)))
      × (length (list_batches codec (limit + 1) s)
          ≡ min (limit + 1) (length (loaded codec s.files)))
unfolding list_sessions list_batches
lists_limited codec limit s =
    let all = loaded codec s.files in
    (
      refl,
      ground (arith, length-take (limit + 1) all),
      omega (arith, length-take 1 all),
      ground (arith, length-take (max 1 (limit + 1)) all),
    )
