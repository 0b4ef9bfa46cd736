-- ===== src/Tools/Registry/Tests.antt =====
-- A small registry of protoneo/tools/types.py, and the theorems at it.
use protoneo.Prelude.{String, ◌≡◌, refl, Bool, true, false, [], ◌∷◌}
use protoneo.Tools.Registry.{Tool, Registry, answered, dispatch}
use protoneo.Tools.Registry.Dispatch.{Named, is_offered, is_answered, dispatch-offered}

abbrev tool : String → Bool → Tool
tool name available = record {
  name = name;
  description = "searches";
  available = available;
  execute = λ query. query;
}

abbrev registry : Registry
registry = ("web", tool "web" true) ∷ ("papers", tool "papers" false) ∷ []

registry-Named : Named registry
registry-Named = record { own = (refl, (refl, tt)); distinct = ((refl, tt), (tt, tt)) }

runs : dispatch "web" "antennas" registry ≡ answered "antennas"
unfolding dispatch
runs = refl

dispatch-offered_example :
    is_answered (dispatch "papers" "antennas" registry) ≡ is_offered "papers" registry
dispatch-offered_example = dispatch-offered "papers" "antennas" registry registry-Named
