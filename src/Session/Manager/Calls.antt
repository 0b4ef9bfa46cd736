-- ===== src/Session/Manager/Calls.antt =====
-- What the users of SessionManager in protoneo/deliberation/session.py observe over any sequence of
-- calls.
use protoneo.Prelude.{
  ℕ, zero, suc, String, ◌≡◌, ap, Bool, true, false, not, Option, some, List, [], ◌∷◌, ◌++◌,
  if◌then◌else◌, if-true, if-false, length, keep, ◌==◌, get_at, is_some,
}
use protoneo.Session.Context.{Context, new}
use protoneo.Session.Manager.{
  Codec, Store, replied, refused, is_valid_id, with_context, get_context, with_new_context, save,
  create,
}

-- The calls, and the changes that users make to a context that they have got.
pub data Op (A : Type 0) : Type 0 where
  saves creates : String → A → Op A
  opens : String → Op A
  changes : (reference : ℕ) → (Context → Context) → Op A

abbrev pub change_at : ℕ → (Context → Context) → List Context → List Context
change_at r change [] = []
change_at zero change (c ∷ cs) = change c ∷ cs
change_at (suc r) change (c ∷ cs) = c ∷ change_at r change cs

-- What a client sees: the text and the context of each identifier, and the contexts' contents.
pub record View : Type 0 where
  pub text : String → Option String
  pub reference : String → Option ℕ
  pub heap : List Context

abbrev pub view : Store → View
view s = record {
  text = λ id. get_at id s.files;
  reference = λ id. get_at id s.contexts;
  heap = s.heap;
}

abbrev pub update : {B : Type 0} → String → B → (String → Option B) → String → Option B
update id b f j = if id == j then some b else f j

abbrev pub allocated : String → View → View
allocated id v = record v {
  reference = update id (length v.heap) v.reference;
  heap = v.heap ++ new id ∷ [];
}

module _ {A : Type 0} (codec : Codec A) (is_plain : String → Bool) where
  abbrev pub call : Op A → Store → Store
  call (saves id a) s = (save codec is_plain id a s).1
  call (creates id a) s = (create codec is_plain id a s).1
  call (opens id) s = (get_context id s).1
  call (changes r change) s = record s { heap = change_at r change s.heap }

  abbrev pub run : List (Op A) → Store → Store
  run [] s = s
  run (op ∷ ops) s = run ops (call op s)

  -- The same calls on functions from identifiers: a text is written under a valid identifier only, its
  -- creation gives it a new context, and so does the first request for one.
  abbrev pub step : Op A → View → View
  step (saves id a) v =
      if is_valid_id is_plain id then record v { text = update id (codec.dump a) v.text } else v
  step (creates id a) v =
      if is_valid_id is_plain id
      then allocated id (record v { text = update id (codec.dump a) v.text })
      else v
  step (opens id) v = if is_some (v.reference id) then v else allocated id v
  step (changes r change) v = record v { heap = change_at r change v.heap }

  abbrev pub replay : List (Op A) → View → View
  replay [] v = v
  replay (op ∷ ops) v = replay ops (step op v)

  pub save-valid :
      (id : String) (a : A) (s : Store)
      → is_valid_id is_plain id ≡ true
      → save codec is_plain id a s ≡ (
        replied tt,
        record s { files = (id, codec.dump a) ∷ keep (λ f. not (f.0 == id)) s.files },
      )
  unfolding save
  save-valid id a s e = if-true (is_valid_id is_plain id) _ (refused, s) e

  pub save-invalid :
      (id : String) (a : A) (s : Store)
      → is_valid_id is_plain id ≡ false
      → save codec is_plain id a s ≡ (refused, s)
  unfolding save
  save-invalid id a s e = if-false (is_valid_id is_plain id) _ (refused, s) e

  pub create-valid :
      (id : String) (a : A) (s : Store)
      → is_valid_id is_plain id ≡ true
      → create codec is_plain id a s ≡ (
        replied tt,
        with_context id
            (record s { files = (id, codec.dump a) ∷ keep (λ f. not (f.0 == id)) s.files }),
      )
  unfolding create
  create-valid id a s e = ap (with_new_context id) (save-valid id a s e)

  pub create-invalid :
      (id : String) (a : A) (s : Store)
      → is_valid_id is_plain id ≡ false
      → create codec is_plain id a s ≡ (refused, s)
  unfolding create
  create-invalid id a s e = ap (with_new_context id) (save-invalid id a s e)
