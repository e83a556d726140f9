-- ===== src/Prelude/Values.antt =====
-- The values that a property list, a JSON document or a device service hands to the code, and the
-- dictionaries among them, in insertion order.
use Prim.Native.Nat.{ℕ}
use mathlib.Core.Bool.{Bool}
use mathlib.Core.Option.{Option, none, some}
use ios_rehydrate.Prelude.Tests.{if◌then◌else◌}
use ios_rehydrate.Prelude.Bytes.{Bytes, Text, eq_text}

-- `negsuc n` is -(n + 1).
pub data ℤ : Type 0 where
  pos : ℕ → ℤ
  negsuc : ℕ → ℤ

-- `other` is a value of another type that can be hashed (a float, a date, `None`).
mutual
  pub data Value : Type 0 where
    boolean : Bool → Value
    integer : ℤ → Value
    text : Text → Value
    bytes : Bytes → Value
    array : Items → Value
    dict : Fields → Value
    other : Value

  pub data Items : Type 0 where
    nil : Items
    cons : Value → Items → Items

  pub data Fields : Type 0 where
    end : Fields
    field : Text → Value → Fields → Fields

-- `mapping.get(key)`; a dictionary holds a key once.
unfoldable pub get : Text → Fields → Option Value
get key end = none
get key (field name value rest) = if eq_text key name then some value else get key rest
