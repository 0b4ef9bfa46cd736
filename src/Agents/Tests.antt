-- ===== src/Agents/Tests.antt =====
-- Requests of protoneo/agents/base.py, and the theorem at one.
use protoneo.Prelude.{String, ◌≡◌, refl, true, none, [], ◌∷◌, map}
use protoneo.Agents.{Message}
use protoneo.Session.Context.{Context, new}
use protoneo.Agents.Messages.{last_role, build_messages, IsRequest, build_messages-IsRequest}

abbrev line : String → String → Message
line role content = record { role = role; content = content; agent_id = none; round = 0 }

abbrev discussed : Context
discussed = record (new "s1") {
  messages = line "assistant" "a" ∷ line "tool" "b" ∷ line "user" "c" ∷ [];
}

-- A role that is neither user nor assistant counts as assistant, and is merged.
merges :
    map (λ m. m.content) (build_messages "sys" discussed "go" true)
    ≡ "sys" ∷ "Prior participant assessments:" ∷ "a\n\nb" ∷ "c\n\ngo" ∷ []
unfolding build_messages
merges = refl

build_messages-IsRequest_example :
    IsRequest "sys" (build_messages "sys" discussed "go" true)
    × (last_role (build_messages "sys" discussed "go" true) ≡ "user")
build_messages-IsRequest_example = build_messages-IsRequest "sys" discussed "go" true
