-- ===== src/Value/Readers.antt =====
-- frontend/services/validation.ts. A reader returns the value that it accepts as the program will
-- keep it, or undefined, here `none`.
use sewn_covers.Prelude.{
  String, Bool, true, false, ◌&&◌, if◌then◌else◌, Option, none, some, List, [], ◌∷◌, any, ◌≡◌, refl,
}
use sewn_covers.Number.{zero_num, is_finite, is_safe_integer, num_le}
use sewn_covers.Text.{Text, codes, text_eq}
use sewn_covers.Value.Json.{
  Value, undef, null, flag, num, str, arr, obj, Items, nil, cons, Fields, end, field, lookup,
}

module _ {ℓ κ} {Found : Type ℓ} {Next : Type κ} where
  infixl 6 ◌>>=◌
  abbrev pub ◌>>=◌ : Option Found → (Found → Option Next) → Option Next
  ◌>>=◌ m next = elim m [ some v ↦ next v | none ↦ none ]

  -- What a successful chain has found.
  pub >>=-eq-some :
      (m : Option Found) (next : Found → Option Next) {last : Next}
      → (m >>= next) ≡ some last
      → (v : Found) × (m ≡ some v) × (next v ≡ some last)
  >>=-eq-some none next h = cc
  >>=-eq-some (some v) next h = (v, refl, h)

-- `isRecord`: an object that is not null and not an array, with its fields.
unfoldable pub as_record : Value → Option Fields
as_record (obj fs) = some fs
as_record _ = none

-- `isOneOf(values, value)`.
unfoldable pub is_one_of : List Text → Value → Bool
unfolding text_eq
is_one_of values (str s) = any (λ t. text_eq t s) values
is_one_of values _ = false

unfoldable pub is_finite_number : Value → Bool
unfolding is_finite
is_finite_number (num n) = is_finite n
is_finite_number _ = false

unfoldable pub is_nonnegative_integer : Value → Bool
unfolding is_safe_integer num_le
is_nonnegative_integer (num n) = is_safe_integer n && num_le zero_num n
is_nonnegative_integer _ = false

abbrev pub Reader : Type 0
Reader = Value → Option Value

-- The loop of `readList`: one unreadable item makes the list unreadable.
unfoldable pub read_items : Reader → Items → Option Items
read_items read nil = some nil
read_items read (cons v vs) = do parsed ← read v; rest ← read_items read vs; some (cons parsed rest)

unfoldable pub read_list : Reader → Value → Option Items
unfolding read_items
read_list read (arr vs) = read_items read vs
read_list read _ = none

-- `recordOf(readers)`: the fields of the table, in its order, each as its reader returned it.
unfoldable pub read_fields : List (String × Reader) → Fields → Option Fields
unfolding lookup
read_fields [] fs = some end
read_fields ((key, read) ∷ readers) fs = do
  v ← read (lookup key fs)
  rest ← read_fields readers fs
  some (field key v rest)

unfoldable pub record_of : List (String × Reader) → Reader
unfolding as_record read_fields
record_of readers value = do
  fs ← as_record value
  result ← read_fields readers fs
  some (obj result)

unfoldable pub text : Reader
text (str s) = some (str s)
text _ = none

unfoldable pub boolean : Reader
boolean (flag b) = some (flag b)
boolean _ = none

unfoldable pub numeric : Reader
numeric (num n) = some (num n)
numeric _ = none

unfoldable pub integer : Reader
unfolding is_safe_integer
integer (num n) = if is_safe_integer n then some (num n) else none
integer _ = none

unfoldable pub whole_number : Reader
unfolding is_nonnegative_integer
whole_number value = if is_nonnegative_integer value then some value else none

unfoldable pub any_record : Reader
any_record (obj fs) = some (obj fs)
any_record _ = none

-- `literal(expected)` of a string.
unfoldable pub literal : Text → Reader
unfolding text_eq
literal expected (str s) = if text_eq s expected then some (str expected) else none
literal expected _ = none

-- `matching(pattern)`; the pattern is the function that decides it.
unfoldable pub matching : (Text → Bool) → Reader
matching pattern (str s) = if pattern s then some (str s) else none
matching pattern _ = none

unfoldable pub one_of : List Text → Reader
unfolding is_one_of
one_of values value = if is_one_of values value then some value else none

unfoldable pub known_or_unknown : List Text → Reader
unfolding is_one_of
known_or_unknown values (str s) =
    some (if is_one_of values (str s) then str s else str (codes "unknown"))
known_or_unknown values _ = none

unfoldable pub or_null : Reader → Reader
or_null read null = some null
or_null read undef = read undef
or_null read (flag b) = read (flag b)
or_null read (num n) = read (num n)
or_null read (str s) = read (str s)
or_null read (arr vs) = read (arr vs)
or_null read (obj fs) = read (obj fs)

unfoldable pub text_or_null : Reader
unfolding or_null text
text_or_null = or_null text

unfoldable pub list_of : Reader → Reader
unfolding read_list
list_of read value = do vs ← read_list read value; some (arr vs)

-- `literal(expected)` of a boolean.
unfoldable pub literal_flag : Bool → Reader
literal_flag true (flag true) = some (flag true)
literal_flag false (flag false) = some (flag false)
literal_flag expected _ = none
