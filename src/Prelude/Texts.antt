-- ===== src/Prelude/Texts.antt =====
-- Texts: the native `String` where the program compares and joins whole texts.
pub use Prim.Native.String.{◌++◌ as ◌+s◌}
pub use text.Mathlib.Text.{◌==◌}
pub use text.Mathlib.TextEquality.{eq_iff}
pub use text.Mathlib.TextPositions.{eq_refl}
use protoneo.Prelude.Lists.{any}
use mathlib.Core.Bool.{Bool}
use mathlib.Core.List.{List}
use Prim.Native.String.{String}
use text.Mathlib.Text.{◌==◌}

-- `x in {...}`
abbrev pub one_of : List String → String → Bool
one_of xs x = any (λ y. x == y) xs
