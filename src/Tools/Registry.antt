-- ===== src/Tools/Registry.antt =====
-- ToolRegistry of protoneo/tools/types.py. What a tool answers to a query is the tool's own code: the
-- function `execute`.
pub mod Dispatch
mod Tests
use protoneo.Prelude.{
  String, Bool, Option, none, some, List, [], ◌∷◌, map, if◌then◌else◌, keep, ◌==◌,
}

-- A registered tool, and whether it says that it is available.
pub record Tool : Type 0 where
  pub name : String
  pub description : String
  pub available : Bool
  pub execute : String → String

abbrev pub Registry : Type 0
Registry = List (String × Tool)

-- `self._tools[tool.name] = tool`: a name keeps its place.
unfoldable pub register : Tool → Registry → Registry
register t [] = (t.name, t) ∷ []
register t ((k, u) ∷ r) =
    let rest = register t r in if k == t.name then (t.name, t) ∷ r else (k, u) ∷ rest

unfoldable pub get_tool : String → Registry → Option Tool
get_tool name [] = none
get_tool name ((k, t) ∷ r) = let rest = get_tool name r in if k == name then some t else rest

unfoldable pub available_tools : Registry → List (String × String)
available_tools r =
    map (λ (e : String × Tool). (e.1.name, e.1.description))
      (keep (λ (e : String × Tool). e.1.available) r)

-- KeyError, RuntimeError, or the tool's answer.
pub data Dispatched : Type 0 where
  unknown unavailable : Dispatched
  answered : String → Dispatched

abbrev pub run_tool : String → Option Tool → Dispatched
run_tool query none = unknown
run_tool query (some t) = if t.available then answered (t.execute query) else unavailable

unfoldable pub dispatch : (name query : String) → Registry → Dispatched
unfolding get_tool
dispatch name query r = run_tool query (get_tool name r)
