-- ===== src/Session/Context.antt =====
-- SessionContext of protoneo/deliberation/session.py. Values are immutable here, so `snapshot`,
-- which copies so that later writes do not show, is the identity and has no definition.
use protoneo.Prelude.{String, ◌==◌, eq_iff, ◌≡◌, List, [], ◌∷◌, ◌++◌, arith, if◌then◌else◌}
use protoneo.Agents.{Message, AgentOutput, Document}

-- The dictionary of outputs by agent, in insertion order.
abbrev pub Outputs : Type 0
Outputs = List (String × List AgentOutput)

pub record Context : Type 0 where
  pub session_id : String
  pub messages : List Message
  pub agent_outputs : Outputs
  pub documents : List Document
  pub phase_contexts : List (String × String)  -- metadata["phase_contexts"]

-- SessionContext(session_id)
abbrev pub new : String → Context
new id = record {
  session_id = id;
  messages = [];
  agent_outputs = [];
  documents = [];
  phase_contexts = [];
}

-- `d.setdefault(key, []).append(output)`
unfoldable pub append_under : String → AgentOutput → Outputs → Outputs
append_under key o [] = (key, o ∷ []) ∷ []
append_under key o ((k, os) ∷ rest) =
    if k == key then (k, os ++ o ∷ []) ∷ rest else (k, os) ∷ append_under key o rest

unfoldable pub add_message : Message → Context → Context
add_message m c = record c { messages = c.messages ++ m ∷ [] }

unfoldable pub add_output : AgentOutput → Context → Context
add_output o c = record c { agent_outputs = append_under o.agent_id o c.agent_outputs }

unfoldable pub add_document : Document → Context → Context
add_document d c = record c { documents = c.documents ++ d ∷ [] }

unfoldable pub clear_deliberation : Context → Context
clear_deliberation c = record c { messages = []; agent_outputs = [] }

-- `d.get(key, [])`
unfoldable pub outputs_under : String → Outputs → List AgentOutput
outputs_under key [] = []
outputs_under key ((k, os) ∷ rest) = if k == key then os else outputs_under key rest

-- An output is added at the end of its agent's list, and no other agent's list changes.
pub outputs_under-append_under :
    (key j : String) (o : AgentOutput) (d : Outputs)
    → outputs_under j (append_under key o d)
      ≡ (if key == j then outputs_under j d ++ o ∷ [] else outputs_under j d)
unfolding outputs_under append_under
outputs_under-append_under key j o [] = ground arith
outputs_under-append_under key j o ((k, os) ∷ rest) =
    ground (arith, eq_iff k key, eq_iff k j, eq_iff key j, outputs_under-append_under key j o rest)
