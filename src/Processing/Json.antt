-- ===== src/Processing/Json.antt =====
-- JSON values as the rules and the snapshots of alerts.py hold them.
use ffllowwgreeks.Prelude.{ℕ, Bool, Text}

-- A number of millionths; `neg n` is -(n + 1).
pub data Number : Type 0 where
  pos neg : ℕ → Number

mutual
  pub data Json : Type 0 where
    null : Json
    boolean : Bool → Json
    number : Number → Json
    string : Text → Json
    array : Items → Json
    object : Fields → Json

  pub data Items : Type 0 where
    no_items : Items
    item : Json → Items → Items

  pub data Fields : Type 0 where
    no_fields : Fields
    field : Text → Json → Fields → Fields
