-- ===== src/Json.antt =====
-- JSON values as `json.loads` gives them. A number is told apart as the code tells it apart: one
-- that equals an integer, a finite one that does not, and one that is not finite.
use protoneo.Prelude.{ℕ, String, Bool}

pub data Number : Type 0 where
  nonnegative : ℕ → Number
  negative : ℕ → Number  -- -(n + 1)
  fraction : String → Number
  nonfinite : String → Number

mutual
  pub data Json : Type 0 where
    null : Json
    bool : Bool → Json
    num : Number → Json
    str : String → Json
    arr : Items → Json
    obj : Fields → Json

  pub data Items : Type 0 where
    nil : Items
    cons : Json → Items → Items

  pub data Fields : Type 0 where
    end : Fields
    field : String → Json → Fields → Fields
