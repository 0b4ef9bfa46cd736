-- ===== src/Session/Manager/Tests.antt =====
-- A small store of protoneo/deliberation/session.py, and the theorem at it.
use protoneo.Prelude.{
  String, ◌≡◌, refl, Bool, not, none, some, List, [], ◌∷◌, if◌then◌else◌, ◌==◌, Distinct, get_at,
  put_at,
}
use protoneo.Session.Context.{Context, new}
use protoneo.Session.Manager.{
  Codec, Store, refused, unreadable, is_valid_id, with_context, get_context, read_file, loaded,
  list_sessions, save, get, create,
}
use protoneo.Session.Manager.Records.{same_file}
use protoneo.Session.Manager.Calls.{Op, saves, creates, opens, changes, view, run, replay}
use protoneo.Session.Manager.Replay.{run-replay}

-- Every text but "a/b" is a file's name.
abbrev is_plain : String → Bool
is_plain s = not (s == "a/b")

-- A record is its text, but for a text that is cut off.
abbrev codec : Codec String
codec = record { dump = λ a. a; load = λ text. if text == "{" then none else some text }

abbrev store : Store
store = record { files = ("s1", "first") ∷ ("s2", "{") ∷ []; contexts = []; heap = [] }

refuses : (save codec is_plain "a/b" "x" store).0 ≡ refused
unfolding save
refuses = refl

broken_file : get codec is_plain "s2" store ≡ unreadable
unfolding get get_at
broken_file = refl

lists_readable : list_sessions codec 0 store ≡ "first" ∷ []
unfolding list_sessions loaded
lists_readable = refl

abbrev renamed : Context → Context
renamed c = record c { phase_contexts = ("review", "source") ∷ [] }

-- The change of the first context stays with it when the session is created again.
recreated :
    (run codec is_plain (opens "s1" ∷ changes 0 renamed ∷ creates "s1" "again" ∷ []) store).heap
    ≡ renamed (new "s1") ∷ new "s1" ∷ []
unfolding get_context create save with_context get_at put_at
recreated = refl

abbrev calls : List (Op String)
calls =
    creates "s3" "third"
    ∷ saves "a/b" "none"
    ∷ opens "s1"
    ∷ changes 1 renamed
    ∷ saves "s1" "fourth"
    ∷ []

run-replay_example :
    Distinct same_file (run codec is_plain calls store).files
    × (view (run codec is_plain calls store) ≡ replay codec is_plain calls (view store))
    × ((id : String)
        → get codec is_plain id (run codec is_plain calls store) ≡ (
            if is_valid_id is_plain id
            then read_file codec ((replay codec is_plain calls (view store)).text id)
            else refused))
run-replay_example = run-replay codec is_plain calls store ((refl, tt), (tt, tt))
