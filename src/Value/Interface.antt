-- ===== src/Value/Interface.antt =====
-- The interfaces of the clients as tests on values, and that the readers of
-- frontend/services/validation.ts return values of the interface that their type names.
use package.text.Mathlib.Text.{◌==◌}
use sewn_covers.Prelude.{
  String, Bool, true, false, ◌&&◌, if◌then◌else◌, Option, none, some, List, [], ◌∷◌, ◌≡◌, refl,
  Bool-cases, inl, inr, subst, and_intro,
}
use sewn_covers.Text.{Text, codes, text_eq}
use sewn_covers.Value.Json.{
  Value, undef, null, flag, num, str, arr, obj, Items, nil, cons, Fields, field, lookup,
}
use sewn_covers.Value.Readers.{
  Reader, text, is_one_of, record_of, >>=-eq-some, as_record, read_fields, read_items, read_list,
  list_of,
}

-- A type of values.
abbrev pub Shape : Type 0
Shape = Value → Bool

unfoldable pub is_string : Shape
is_string (str s) = true
is_string _ = false

unfoldable pub is_number : Shape
is_number (num n) = true
is_number _ = false

unfoldable pub is_boolean : Shape
is_boolean (flag b) = true
is_boolean _ = false

unfoldable pub is_true : Shape
is_true (flag true) = true
is_true _ = false

unfoldable pub is_literal : Text → Shape
unfolding text_eq
is_literal expected (str s) = text_eq s expected
is_literal expected _ = false

-- One of the values, or "unknown".
unfoldable pub is_known : List Text → Shape
unfolding is_one_of
is_known values value = is_one_of (codes "unknown" ∷ values) value

unfoldable pub is_object : Shape
is_object (obj fs) = true
is_object _ = false

unfoldable pub is_nullable : Shape → Shape
is_nullable shape null = true
is_nullable shape undef = shape undef
is_nullable shape (flag b) = shape (flag b)
is_nullable shape (num n) = shape (num n)
is_nullable shape (str s) = shape (str s)
is_nullable shape (arr vs) = shape (arr vs)
is_nullable shape (obj fs) = shape (obj fs)

unfoldable pub are_items : Shape → Items → Bool
are_items shape nil = true
are_items shape (cons v vs) = shape v && are_items shape vs

unfoldable pub is_array : Shape → Shape
unfolding are_items
is_array shape (arr vs) = are_items shape vs
is_array shape _ = false

unfoldable pub has_fields : List (String × Shape) → Fields → Bool
unfolding lookup
has_fields [] fs = true
has_fields ((key, shape) ∷ shapes) fs = shape (lookup key fs) && has_fields shapes fs

-- An object with these fields; it may have more.
unfoldable pub is_interface : List (String × Shape) → Shape
unfolding has_fields
is_interface shapes (obj fs) = has_fields shapes fs
is_interface shapes _ = false

-- What the reader returns is of the type.
abbrev pub Fits : Reader → Shape → Type 0
Fits read shape = (v w : Value) → read v ≡ some w → shape w ≡ true

abbrev find_reader : String → List (String × Reader) → Option Reader
find_reader key [] = none
find_reader key ((k, read) ∷ readers) = if k == key then some read else find_reader key readers

abbrev FitsAt : Option Reader → Shape → Type 0
FitsAt none shape = ⊥
FitsAt (some read) shape = Fits read shape

-- The table has a reader for every field of the interface, of its type.
abbrev pub AreFitting : List (String × Reader) → List (String × Shape) → Type 0
AreFitting readers [] = Unit {0}
AreFitting readers ((key, shape) ∷ shapes) =
    FitsAt (find_reader key readers) shape × AreFitting readers shapes

lookup-found :
    (readers : List (String × Reader)) (fs result : Fields) (key : String) (shape : Shape)
    → read_fields readers fs ≡ some result
    → FitsAt (find_reader key readers) shape
    → shape (lookup key result) ≡ true
unfolding read_fields lookup
lookup-found [] fs result key shape h fits = absurd fits
lookup-found ((k, read) ∷ readers) fs result key shape h fits =
    let (v, read_v, h1) = >>=-eq-some (read (lookup k fs)) _ h in
    let (rest, read_rest, h2) = >>=-eq-some (read_fields readers fs) _ h1 in
    let same : field k v rest ≡ result = cc in
    let choice = λ (b : Bool). FitsAt (if b then some read else find_reader key readers) shape in
    rw (← same) (elim (Bool-cases (k == key)) [
      | inl here ↦
          let fit : Fits read shape = subst choice here fits in rw here (fit (lookup k fs) v read_v)
      | inr later ↦
          rw later (lookup-found readers fs rest key shape read_rest (subst choice later fits))
    ])

fields-found :
    (readers : List (String × Reader)) (shapes : List (String × Shape)) (fs result : Fields)
    → read_fields readers fs ≡ some result
    → AreFitting readers shapes
    → has_fields shapes result ≡ true
unfolding has_fields
fields-found readers [] fs result h fits = refl
fields-found readers ((key, shape) ∷ shapes) fs result h (fit, fits) =
    and_intro _ _ (lookup-found readers fs result key shape h fit)
      (fields-found readers shapes fs result h fits)

pub record_of-Fits :
    (readers : List (String × Reader)) (shapes : List (String × Shape))
    → AreFitting readers shapes
    → Fits (record_of readers) (is_interface shapes)
unfolding record_of as_record is_interface
record_of-Fits readers shapes fits v w h =
    let (fs, is_obj, h1) = >>=-eq-some (as_record v) _ h in
    let (result, found, h2) = >>=-eq-some (read_fields readers fs) _ h1 in
    let same : obj result ≡ w = cc in rw (← same) (fields-found readers shapes fs result found fits)

items-found :
    (read : Reader) (shape : Shape) (vs ws : Items)
    → Fits read shape
    → read_items read vs ≡ some ws
    → are_items shape ws ≡ true
unfolding read_items are_items
items-found read shape nil ws fits h = let same : nil ≡ ws = cc in rw (← same) refl
items-found read shape (cons v vs) ws fits h =
    let (p, read_v, h1) = >>=-eq-some (read v) _ h in
    let (rest, read_rest, h2) = >>=-eq-some (read_items read vs) _ h1 in
    let same : cons p rest ≡ ws = cc in
    rw (← same) (and_intro _ _ (fits v p read_v) (items-found read shape vs rest fits read_rest))

pub list_of-Fits :
    (read : Reader) (shape : Shape) → Fits read shape → Fits (list_of read) (is_array shape)
unfolding list_of read_list is_array
list_of-Fits read shape fits (arr vs) w h =
    let (ws, found, h1) = >>=-eq-some (read_items read vs) _ h in
    let same : arr ws ≡ w = cc in rw (← same) (items-found read shape vs ws fits found)
list_of-Fits read shape fits _ w h = cc
