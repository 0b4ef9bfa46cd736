-- ===== src/Session/Manager.antt =====
-- SessionManager and BatchManager of protoneo/deliberation/session.py as a store of texts and of
-- references to contexts. A save is atomic, so the directory is a list of files, the last written
-- first, which is the order of their times. `is_plain` tells that a text is its own `Path(...).name`
-- and has no backslash. A context is an object that its users change, known by its place in `heap`.
pub mod Records
pub mod Calls
pub mod Replay
mod Tests
use protoneo.Prelude.{
  ℕ, max, String, Bool, not, ◌&&◌, Option, none, some, List, [], ◌∷◌, ◌++◌, ◌=ℕ◌, if◌then◌else◌,
  length, take, keep, all, ◌==◌, get_at, put_at,
}
use protoneo.Session.Context.{Context, new}

-- `model_dump_json`, and `model_validate_json`, which has no result where it raises.
pub record Codec (A : Type 0) : Type 0 where
  pub dump : A → String
  pub load : String → Option A

pub record Store : Type 0 where
  pub files : List (String × String)
  pub contexts : List (String × ℕ)
  pub heap : List Context

-- The methods that take an identifier raise ValueError for an invalid one: `refused`; `get` raises
-- ValidationError where the file is not the text of a record: `unreadable`.
pub data Reply (A : Type 0) : Type 0 where
  replied : A → Reply A
  refused unreadable : Reply A

-- `_record_path`
unfoldable pub is_valid_id : (is_plain : String → Bool) → String → Bool
is_valid_id is_plain id = not (id == "") && is_plain id

-- `self._contexts[id] = context` and its look-up are `put_at` and `get_at`. A new context is allocated.
unfoldable pub with_context : String → Store → Store
with_context id s = record s {
  contexts = put_at id (length s.heap) s.contexts;
  heap = s.heap ++ new id ∷ [];
}

abbrev pub or_new : String → Option ℕ → Store → ℕ × Store
or_new id (some r) s = (r, s)
or_new id none s = (length s.heap, with_context id s)

unfoldable pub get_context : String → Store → ℕ × Store
unfolding with_context
get_context id s = or_new id (get_at id s.contexts) s

-- What `create` does after its save, unless this raised.
abbrev pub with_new_context : String → Reply (Unit {0}) × Store → Reply (Unit {0}) × Store
with_new_context id (replied u, s) = (replied u, with_context id s)
with_new_context id (refused, s) = (refused, s)
with_new_context id (unreadable, s) = (unreadable, s)

module _ {A : Type 0} (codec : Codec A) where
  abbrev pub read_text : Option A → Reply (Option A)
  read_text none = unreadable
  read_text (some a) = replied (some a)

  -- What `get` does with the file that is there, if one is.
  abbrev pub read_file : Option String → Reply (Option A)
  read_file none = replied none
  read_file (some text) = read_text (codec.load text)

  abbrev with_loaded : Option A → List A → List A
  with_loaded none rest = rest
  with_loaded (some a) rest = a ∷ rest

  -- The records in the files, without those that cannot be read.
  unfoldable pub loaded : List (String × String) → List A
  loaded [] = []
  loaded ((id, text) ∷ files) = with_loaded (codec.load text) (loaded files)

  -- `list_sessions`: a limit of 0 is none.
  unfoldable pub list_sessions : (limit : ℕ) → Store → List A
  list_sessions limit s = let all = loaded s.files in if limit =ℕ 0 then all else take limit all

  -- `list_batches` tests its limit after each batch, so that it gives one for a limit of 0.
  unfoldable pub list_batches : (limit : ℕ) → Store → List A
  list_batches limit s = take (max 1 limit) (loaded s.files)

  module _ (is_plain : String → Bool) where
    -- `_save`, and `update` but for the time of the update
    unfoldable pub save : String → A → Store → Reply (Unit {0}) × Store
    unfolding is_valid_id
    save id a s =
        if is_valid_id is_plain id
        then (
          replied tt,
          record s { files = (id, codec.dump a) ∷ keep (λ f. not (f.0 == id)) s.files },
        )
        else (refused, s)

    unfoldable pub get : String → Store → Reply (Option A)
    unfolding is_valid_id
    get id s = if is_valid_id is_plain id then read_file (get_at id s.files) else refused

    -- `create`, for the identifier that `uuid4` gives the record
    unfoldable pub create : String → A → Store → Reply (Unit {0}) × Store
    create id a s = with_new_context id (save id a s)
