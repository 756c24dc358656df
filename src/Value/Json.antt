-- ===== src/Value/Json.antt =====
-- A JavaScript value that the readers are given: `undefined`, or data of JSON. The fields of an
-- object have distinct names, and a missing one reads as `undefined`.
use text.Mathlib.Text.{◌==◌}
use sewn_covers.Prelude.{String, Bool, true, false, List, [], ◌∷◌, if◌then◌else◌}
use sewn_covers.Number.{Num}
use sewn_covers.Text.{Text}

mutual
  pub data Value : Type 0 where
    undef : Value
    str : Text → Value
    num : Num → Value
    flag : Bool → Value
    null : Value
    obj : Fields → Value
    arr : Items → Value

  pub data Fields : Type 0 where
    field : String → Value → Fields → Fields
    end : Fields

  pub data Items : Type 0 where
    cons : Value → Items → Items
    nil : Items

-- The elements of an array, in order.
abbrev pub items : Items → List Value
items nil = []
items (cons v vs) = v ∷ items vs

unfoldable pub lookup : String → Fields → Value
lookup key end = undef
lookup key (field k v fs) = if k == key then v else lookup key fs

-- `Object.hasOwn(value, key)` of a record.
unfoldable pub has_field : String → Fields → Bool
has_field key end = false
has_field key (field k v fs) = if k == key then true else has_field key fs
