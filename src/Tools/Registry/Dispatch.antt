-- ===== src/Tools/Registry/Dispatch.antt =====
-- ToolRegistry of protoneo/tools/types.py runs exactly the tools that it offers.
use protoneo.Prelude.{
  String, ◌≡◌, refl, subst, inl, inr, Bool, true, false, some, [], ◌∷◌, arith, if◌then◌else◌,
  Bool-cases, any, All, ◌==◌, eq_iff, Distinct,
}
use protoneo.Tools.Registry.{
  Tool, Registry, register, get_tool, available_tools, Dispatched, answered, dispatch,
}

abbrev pub same_name : (String × Tool) → (String × Tool) → Bool
same_name a b = a.0 == b.0

-- Every tool stands under its own name, and no name stands twice.
pub record Named (r : Registry) : Type 0 where
  pub own : All (λ e. e.0 ≡ e.1.name) r
  pub distinct : Distinct same_name r

register-own :
    (t : Tool) (r : Registry)
    → All (λ e. e.0 ≡ e.1.name) r
    → All (λ e. e.0 ≡ e.1.name) (register t r)
unfolding register
register-own t [] h = (refl, tt)
register-own t ((k, u) ∷ r) h = elim (Bool-cases (k == t.name)) [
  | inl e ↦ rw e (refl, h.1)
  | inr e ↦ rw e (h.0, register-own t r h.1)
]

register-apart :
    (name : String) (t : Tool) (r : Registry)
    → (name == t.name) ≡ false
    → All (λ e. (name == e.0) ≡ false) r
    → All (λ e. (name == e.0) ≡ false) (register t r)
unfolding register
register-apart name t [] d h = (d, tt)
register-apart name t ((k, u) ∷ r) d h = elim (Bool-cases (k == t.name)) [
  | inl e ↦ rw e (d, h.1)
  | inr e ↦ rw e (h.0, register-apart name t r d h.1)
]

register-Distinct :
    (t : Tool) (r : Registry) → Distinct same_name r → Distinct same_name (register t r)
unfolding register
register-Distinct t [] h = (tt, tt)
register-Distinct t ((k, u) ∷ r) h = elim (Bool-cases (k == t.name)) [
  | inl e ↦ rw e (subst (λ n. All (λ x. (n == x.0) ≡ false) r) ((eq_iff k t.name).0 e) h.0, h.1)
  | inr e ↦ rw e (register-apart k t r e h.0, register-Distinct t r h.1)
]

get_tool-register :
    (t : Tool) (name : String) (r : Registry)
    → get_tool name (register t r) ≡ (if t.name == name then some t else get_tool name r)
unfolding get_tool register
get_tool-register t name [] = refl
get_tool-register t name ((k, u) ∷ r) =
    ground (arith, get_tool-register t name r, eq_iff k t.name, eq_iff k name, eq_iff t.name name)

-- Registration keeps every tool under its own name and no name twice; the tool is then the one found
-- under its name, and under every other name the same tool is found as before.
pub register-Named :
    (t : Tool) (name : String) (r : Registry)
    → Named r
    → Named (register t r)
      × (get_tool name (register t r) ≡ (if t.name == name then some t else get_tool name r))
register-Named t name r h = (
  record { own = register-own t r h.own; distinct = register-Distinct t r h.distinct },
  get_tool-register t name r,
)

-- The names that agents are offered.
abbrev pub is_offered : String → Registry → Bool
is_offered name r = any (λ (e : String × String). e.0 == name) (available_tools r)

abbrev pub is_answered : Dispatched → Bool
is_answered (answered s) = true
is_answered _ = false

no_other :
    (name : String) (r : Registry)
    → All (λ e. e.0 ≡ e.1.name) r
    → All (λ e. (name == e.0) ≡ false) r
    → is_offered name r ≡ false
unfolding available_tools
no_other name [] h k = refl
no_other name ((k, t) ∷ r) h d =
    ground (arith, no_other name r h.1 d.1, h.0, d.0, eq_iff name k, eq_iff t.name name)

-- A tool answers under a name if and only if the name is among the available tools that agents are
-- offered; in particular a dispatch of an offered name raises neither error.
pub dispatch-offered :
    (name query : String) (r : Registry)
    → Named r
    → is_answered (dispatch name query r) ≡ is_offered name r
unfolding dispatch available_tools
dispatch-offered name query [] h = refl
dispatch-offered name query ((k, t) ∷ r) h = elim (Bool-cases (k == name)) [
  | inl e ↦
      let other =
        no_other name r h.own.1
          (subst (λ n. All (λ x. (n == x.0) ≡ false) r) ((eq_iff k name).0 e) h.distinct.0) in
      rw e (ground (arith, other, h.own.0, eq_iff k name, eq_iff t.name name))
  | inr e ↦ rw e (
      ground (
        arith,
        dispatch-offered name query r (record { own = h.own.1; distinct = h.distinct.1 }),
        h.own.0,
        eq_iff k name,
        eq_iff t.name name,
      ))
]
