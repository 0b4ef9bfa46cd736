-- ===== src/Session/Manager/Replay.antt =====
-- SessionManager of protoneo/deliberation/session.py shows its users what the same calls on functions
-- from identifiers show.
use protoneo.Prelude.{
  ℕ, String, ◌≡◌, refl, sym, ap, ◌∙◌, subst, inl, inr, Bool, not, Option, none, some, List, [], ◌∷◌,
  ◌++◌, if◌then◌else◌, Bool-cases, if-true, if-false, length, keep, ◌==◌, Distinct, get_at,
  get_at-put_at, is_some,
}
use protoneo.Session.Context.{new}
use protoneo.Session.Manager.{
  Codec, Store, refused, is_valid_id, with_context, or_new, get_context, read_file, get,
}
use protoneo.Session.Manager.Records.{same_file, get_at-saved, save-Distinct}
use protoneo.Session.Manager.Calls.{
  Op, saves, creates, opens, changes, View, view, update, allocated, call, run, step, replay,
  save-valid, save-invalid, create-valid, create-invalid,
}

view_saved :
    (id text : String) (s : Store)
    → view (record s { files = (id, text) ∷ keep (λ f. not (f.0 == id)) s.files })
      ≡ record (view s) { text = update id text (view s).text }
view_saved id text s = λ i. record {
  text = λ j. get_at-saved id j text s.files i;
  reference = λ j. get_at j s.contexts;
  heap = s.heap;
}

view-allocated : (id : String) (s : Store) → view (with_context id s) ≡ allocated id (view s)
unfolding with_context
view-allocated id s = λ i. record {
  text = λ j. get_at j s.files;
  reference = λ j. get_at-put_at id j (length s.heap) s.contexts i;
  heap = s.heap ++ new id ∷ [];
}

view_opened :
    (id : String) (s : Store) (o : Option ℕ)
    → view (or_new id o s).1 ≡ (if is_some o then view s else allocated id (view s))
view_opened id s none = view-allocated id s
view_opened id s (some r) = refl

module _ {A : Type 0} (codec : Codec A) (is_plain : String → Bool) where
  call-step :
      (op : Op A) (s : Store) → view (call codec is_plain op s) ≡ step codec is_plain op (view s)
  unfolding get_context
  call-step (saves id a) s = elim (Bool-cases (is_valid_id is_plain id)) [
    | inl e ↦
        ap (λ t. view t.1) (save-valid codec is_plain id a s e)
        ∙ view_saved id (codec.dump a) s
        ∙ sym (if-true (is_valid_id is_plain id) _ (view s) e)
    | inr e ↦
        ap (λ t. view t.1) (save-invalid codec is_plain id a s e)
        ∙ sym (if-false (is_valid_id is_plain id) _ (view s) e)
  ]
  call-step (creates id a) s = elim (Bool-cases (is_valid_id is_plain id)) [
    | inl e ↦
        ap (λ t. view t.1) (create-valid codec is_plain id a s e)
        ∙ view-allocated id _
        ∙ ap (allocated id) (view_saved id (codec.dump a) s)
        ∙ sym (if-true (is_valid_id is_plain id) _ (view s) e)
    | inr e ↦
        ap (λ t. view t.1) (create-invalid codec is_plain id a s e)
        ∙ sym (if-false (is_valid_id is_plain id) _ (view s) e)
  ]
  call-step (opens id) s = view_opened id s (get_at id s.contexts)
  call-step (changes r change) s = refl

  opened-files : (id : String) (o : Option ℕ) (s : Store) → (or_new id o s).1.files ≡ s.files
  unfolding with_context
  opened-files id none s = refl
  opened-files id (some r) s = refl

  call-Distinct :
      (op : Op A) (s : Store)
      → Distinct same_file s.files
      → Distinct same_file (call codec is_plain op s).files
  unfolding get_context with_context
  call-Distinct (saves id a) s h = save-Distinct codec is_plain id a s h
  call-Distinct (creates id a) s h = elim (Bool-cases (is_valid_id is_plain id)) [
    | inl e ↦
        let saved =
          subst (λ t. Distinct same_file t.1.files) (save-valid codec is_plain id a s e)
            (save-Distinct codec is_plain id a s h) in
        subst (λ t. Distinct same_file t.1.files) (sym (create-valid codec is_plain id a s e)) saved
    | inr e ↦
        subst (λ t. Distinct same_file t.1.files) (sym (create-invalid codec is_plain id a s e)) h
  ]
  call-Distinct (opens id) s h =
      subst (Distinct same_file) (sym (opened-files id (get_at id s.contexts) s)) h
  call-Distinct (changes r change) s h = h

  -- Any sequence of saves, creations, requests for contexts and changes of contexts by their users leaves
  -- one file for each record, and shows, under every identifier, the text and the context that the same
  -- calls on functions from identifiers give, with the same contents of all contexts. Under a valid
  -- identifier `get` gives what is read from that text, if there is one, and it refuses any other.
  pub run-replay :
      (ops : List (Op A)) (s : Store)
      → Distinct same_file s.files
      → Distinct same_file (run codec is_plain ops s).files
        × (view (run codec is_plain ops s) ≡ replay codec is_plain ops (view s))
        × ((id : String)
            → get codec is_plain id (run codec is_plain ops s) ≡ (
                if is_valid_id is_plain id
                then read_file codec ((replay codec is_plain ops (view s)).text id)
                else refused))
  unfolding get
  run-replay [] s h = (h, refl, λ id. refl)
  run-replay (op ∷ ops) s h =
      let rest = run-replay ops (call codec is_plain op s) (call-Distinct op s h) in
      let same = ap (replay codec is_plain ops) (call-step op s) in
      (
        rest.0,
        rest.1 ∙ same,
        λ id.
            rest.2 id
            ∙ ap
                (λ (v : View).
                  if is_valid_id is_plain id then read_file codec (v.text id) else refused)
                same,
      )
