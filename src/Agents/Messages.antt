-- ===== src/Agents/Messages.antt =====
-- BaseAgent._build_messages of protoneo/agents/base.py: the request of a model call, in which user
-- and assistant alternate strictly, as some chat templates demand.
use protoneo.Prelude.{
  String, ◌≡◌, refl, ◌∙◌, inl, inr, Bool, true, false, ◌&&◌, List, [], ◌∷◌, ◌++◌, arith, ◌=ℕ◌,
  if◌then◌else◌, Bool-cases, length, ◌+s◌, ◌==◌, eq_iff,
}
use protoneo.Agents.{Message}
use protoneo.Session.Context.{Context}

pub record Chat : Type 0 where
  pub role : String
  pub content : String

pub data Side : Type 0 where
  user assistant : Side

abbrev pub role_name : Side → String
role_name user = "user"
role_name assistant = "assistant"

abbrev pub other : Side → Side
other user = assistant
other assistant = user

-- `m.role if m.role in ("user", "assistant") else "assistant"`
unfoldable pub side_of : String → Side
side_of role = if role == "user" then user else assistant

abbrev pub chat : Side → String → Chat
chat side content = record { role = role_name side; content = content }

-- `msgs[-1]["role"]`
unfoldable pub last_role : List Chat → String
last_role [] = ""
last_role (x ∷ []) = x.role
last_role (x ∷ y ∷ msgs) = last_role (y ∷ msgs)

-- `msgs[-1]["content"] += "\n\n" + content`
unfoldable pub merge_last : String → List Chat → List Chat
merge_last content [] = []
merge_last content (x ∷ []) = record x { content = x.content +s "\n\n" +s content } ∷ []
merge_last content (x ∷ y ∷ msgs) = x ∷ merge_last content (y ∷ msgs)

-- A text of one side, merged with the last message where that is of the same side.
unfoldable pub push : Side → String → List Chat → List Chat
unfolding last_role merge_last
push side content msgs =
    if last_role msgs == role_name side
    then merge_last content msgs
    else msgs ++ chat side content ∷ []

-- The system message alone is followed by a message of the user in any case.
unfoldable pub opened : Side → List Chat → List Chat
opened side msgs =
    if length msgs =ℕ 1 && role_name side == "assistant"
    then msgs ++ chat user "Prior participant assessments:" ∷ []
    else msgs

-- One round of the loop over the history.
unfoldable pub add_history : Message → List Chat → List Chat
unfolding push side_of opened
add_history m msgs = push (side_of m.role) m.content (opened (side_of m.role) msgs)

unfoldable pub add_all : List Message → List Chat → List Chat
unfolding add_history
add_all [] msgs = msgs
add_all (m ∷ ms) msgs = add_all ms (add_history m msgs)

abbrev pub has_messages : List Message → Bool
has_messages [] = false
has_messages (_ ∷ _) = true

unfoldable pub build_messages :
    (system_prompt : String) → Context → (content : String) → (include_history : Bool) → List Chat
unfolding add_all
build_messages system_prompt context content include_history =
    let start = record { role = "system"; content = system_prompt } ∷ [] in
    if include_history && has_messages context.messages
    then (let msgs = add_all context.messages start in
        if last_role msgs == "user"
        then merge_last content msgs
        else msgs ++ chat user content ∷ [])
    else start ++ chat user content ∷ []

-- The messages alternate, the first being of the given side.
abbrev pub Alternates : Side → List Chat → Type 0
Alternates side [] = Unit
Alternates side (x ∷ msgs) = (x.role ≡ role_name side) × Alternates (other side) msgs

-- One system message, then alternating messages from the user on.
pub record IsRequest (system_prompt : String) (msgs : List Chat) : Type 0 where
  pub turns : List Chat
  pub split : msgs ≡ record { role = "system"; content = system_prompt } ∷ turns
  pub alternating : Alternates user turns

merge_last-Alternates :
    (side : Side) (c : String) (msgs : List Chat)
    → Alternates side msgs
    → Alternates side (merge_last c msgs)
unfolding merge_last
merge_last-Alternates side c [] h = tt
merge_last-Alternates side c (x ∷ []) h = h
merge_last-Alternates side c (x ∷ y ∷ msgs) h =
    (h.0, merge_last-Alternates (other side) c (y ∷ msgs) h.1)

snoc-Alternates :
    (first side : Side) (c : String) (x : Chat) (msgs : List Chat)
    → (last_role (x ∷ msgs) == role_name side) ≡ false
    → Alternates first (x ∷ msgs)
    → Alternates first ((x ∷ msgs) ++ chat side c ∷ [])
unfolding last_role
snoc-Alternates first side c x [] e h = (h.0, (opposite first side (rw h.0 at e), tt))
  where
    opposite :
        (a b : Side) → (role_name a == role_name b) ≡ false → role_name b ≡ role_name (other a)
    opposite user user e = cc
    opposite user assistant e = refl
    opposite assistant user e = refl
    opposite assistant assistant e = cc
snoc-Alternates first side c x (y ∷ msgs) e h =
    (h.0, snoc-Alternates (other first) side c y msgs e h.1)

abbrev system : String → Chat
system prompt = record { role = "system"; content = prompt }

push-IsRequest :
    (prompt : String) (side : Side) (c : String) (x : Chat) (turns : List Chat)
    → Alternates user (x ∷ turns)
    → IsRequest prompt (push side c (system prompt ∷ x ∷ turns))
unfolding push last_role merge_last
push-IsRequest prompt side c x turns h =
    elim (Bool-cases (last_role (x ∷ turns) == role_name side)) [
      | inl e ↦ rw e (record {
        turns = merge_last c (x ∷ turns);
        split = refl;
        alternating = merge_last-Alternates user c (x ∷ turns) h;
      })
      | inr e ↦ rw e (record {
        turns = (x ∷ turns) ++ chat side c ∷ [];
        split = refl;
        alternating = snoc-Alternates user side c x turns e h;
      })
    ]

-- The first message of the history.
first-IsRequest :
    (prompt : String) (side : Side) (c : String)
    → IsRequest prompt (push side c (opened side (system prompt ∷ [])))
unfolding push opened last_role merge_last
first-IsRequest prompt user c = record {
  turns = chat user c ∷ [];
  split = refl;
  alternating = (refl, tt);
}
first-IsRequest prompt assistant c = record {
  turns = chat user "Prior participant assessments:" ∷ chat assistant c ∷ [];
  split = refl;
  alternating = (refl, (refl, tt));
}

opened-cons :
    (side : Side) (s x : Chat) (turns : List Chat) → opened side (s ∷ x ∷ turns) ≡ s ∷ x ∷ turns
unfolding opened
opened-cons side s x turns = ground arith

add_history-IsRequest :
    (prompt : String) (m : Message) (turns : List Chat)
    → Alternates user turns
    → IsRequest prompt (add_history m (system prompt ∷ turns))
unfolding add_history
add_history-IsRequest prompt m [] h = first-IsRequest prompt (side_of m.role) m.content
add_history-IsRequest prompt m (x ∷ turns) h =
    rw (opened-cons (side_of m.role) (system prompt) x turns)
      (push-IsRequest prompt (side_of m.role) m.content x turns h)

add_all-IsRequest :
    (prompt : String) (ms : List Message) (turns : List Chat)
    → Alternates user turns
    → IsRequest prompt (add_all ms (system prompt ∷ turns))
unfolding add_all
add_all-IsRequest prompt [] turns h = record { turns = turns; split = refl; alternating = h }
add_all-IsRequest prompt (m ∷ ms) turns h =
    let r = add_history-IsRequest prompt m turns h in
    rw r.split (add_all-IsRequest prompt ms r.turns r.alternating)

last_role-merge_last :
    (c : String) (msgs : List Chat) → last_role (merge_last c msgs) ≡ last_role msgs
unfolding last_role merge_last
last_role-merge_last c [] = refl
last_role-merge_last c (x ∷ []) = refl
last_role-merge_last c (x ∷ y ∷ []) = refl
last_role-merge_last c (x ∷ y ∷ z ∷ msgs) = last_role-merge_last c (y ∷ z ∷ msgs)

last_role-snoc : (msgs : List Chat) (x : Chat) → last_role (msgs ++ x ∷ []) ≡ x.role
unfolding last_role
last_role-snoc [] x = refl
last_role-snoc (y ∷ []) x = refl
last_role-snoc (y ∷ z ∷ msgs) x = last_role-snoc (z ∷ msgs) x

last_role-push :
    (side : Side) (c : String) (msgs : List Chat) → last_role (push side c msgs) ≡ role_name side
unfolding push
last_role-push side c msgs = elim (Bool-cases (last_role msgs == role_name side)) [
  | inl e ↦ rw e (last_role-merge_last c msgs ∙ (eq_iff (last_role msgs) (role_name side)).0 e)
  | inr e ↦ rw e (last_role-snoc msgs (chat side c))
]

push_user-IsRequest :
    (prompt c : String) (turns : List Chat)
    → Alternates user turns
    → IsRequest prompt (push user c (system prompt ∷ turns))
unfolding push opened last_role merge_last
push_user-IsRequest prompt c [] h = record {
  turns = chat user c ∷ [];
  split = refl;
  alternating = (refl, tt);
}
push_user-IsRequest prompt c (x ∷ turns) h = push-IsRequest prompt user c x turns h

-- The request's last step is a `push` of the user's text, onto the history if there is one.
build_messages-push :
    (prompt : String) (context : Context) (c : String) (include_history : Bool)
    → (turns : List Chat) × Alternates user turns
      × (build_messages prompt context c include_history ≡ push user c (system prompt ∷ turns))
unfolding build_messages push last_role
build_messages-push prompt context c include_history =
    elim (Bool-cases (include_history && has_messages context.messages)) [
      | inl e ↦
          let r = add_all-IsRequest prompt context.messages [] tt in
          (r.turns, r.alternating, rw (e, r.split) refl)
      | inr e ↦ ([], tt, rw e refl)
    ]

-- Every request has one system message, the agent's prompt, and then messages that alternate
-- strictly between user and assistant, beginning and ending with the user, whatever the roles in
-- the history are and whether or not it is included.
pub build_messages-IsRequest :
    (prompt : String) (context : Context) (c : String) (include_history : Bool)
    → IsRequest prompt (build_messages prompt context c include_history)
      × (last_role (build_messages prompt context c include_history) ≡ "user")
build_messages-IsRequest prompt context c include_history =
    let (turns, h, e) = build_messages-push prompt context c include_history in
    rw e (push_user-IsRequest prompt c turns h, last_role-push user c (system prompt ∷ turns))
