-- ===== src/Value/Typed.antt =====
-- The readers of single values return values of their types.
use sewn_covers.Prelude.{
  Bool, true, false, if◌then◌else◌, none, some, List, ◌≡◌, refl, arith, Bool-cases, inl, inr,
}
use sewn_covers.Number.{is_safe_integer}
use sewn_covers.Text.{Text, codes, text_eq, text_eq_refl}
use sewn_covers.Value.Json.{Value, undef, null, flag, num, str, arr, obj}
use sewn_covers.Value.Readers.{
  Reader, text, boolean, numeric, integer, whole_number, any_record, literal, literal_flag,
  matching, is_one_of, one_of, known_or_unknown, or_null, text_or_null, is_nonnegative_integer,
}
use sewn_covers.Value.Interface.{
  Shape, is_string, is_number, is_boolean, is_true, is_literal, is_known, is_object, is_nullable,
  Fits, list_of-Fits,
}

pub text-Fits : Fits text is_string
unfolding text is_string
text-Fits (str s) w h = let same : str s ≡ w = ground arith in rw (← same) refl
text-Fits _ w h = cc

pub boolean-Fits : Fits boolean is_boolean
unfolding boolean is_boolean
boolean-Fits (flag b) w h = let same : flag b ≡ w = ground arith in rw (← same) refl
boolean-Fits _ w h = cc

pub numeric-Fits : Fits numeric is_number
unfolding numeric is_number
numeric-Fits (num n) w h = let same : num n ≡ w = ground arith in rw (← same) refl
numeric-Fits _ w h = cc

pub any_record-Fits : Fits any_record is_object
unfolding any_record is_object
any_record-Fits (obj fs) w h = let same : obj fs ≡ w = ground arith in rw (← same) refl
any_record-Fits _ w h = cc

pub literal_flag-Fits : Fits (literal_flag true) is_true
unfolding literal_flag is_true
literal_flag-Fits (flag true) w h = let same : flag true ≡ w = ground arith in rw (← same) refl
literal_flag-Fits (flag false) w h = cc
literal_flag-Fits _ w h = cc

-- A reader that returns the value itself where a test holds.
tested :
    {test shape : Value → Bool}
    → ((v : Value) → test v ≡ true → shape v ≡ true)
    → (v w : Value) → (if test v then some v else none) ≡ some w
    → shape w ≡ true
tested {test = test} {shape = shape} fits v w h = elim (Bool-cases (test v)) [
  | inl good ↦ let same : v ≡ w = ground arith in rw (← same) (fits v good)
  | inr bad ↦ absurd (ground arith)
]

pub one_of-Fits : (values : List Text) → Fits (one_of values) (is_one_of values)
unfolding one_of
one_of-Fits values v w h =
    tested {test = is_one_of values} {shape = is_one_of values} (λ x good. good) v w h

integer_number : (v : Value) → is_nonnegative_integer v ≡ true → is_number v ≡ true
unfolding is_nonnegative_integer is_number
integer_number (num n) h = refl
integer_number undef h = cc
integer_number null h = cc
integer_number (flag b) h = cc
integer_number (str s) h = cc
integer_number (arr vs) h = cc
integer_number (obj fs) h = cc

pub whole_number-Fits : Fits whole_number is_number
unfolding whole_number
whole_number-Fits v w h =
    tested {test = is_nonnegative_integer} {shape = is_number} integer_number v w h

pub integer-Fits : Fits integer is_number
unfolding integer is_number
integer-Fits (num n) w h = elim (Bool-cases (is_safe_integer n)) [
  | inl good ↦ let same : num n ≡ w = ground arith in rw (← same) refl
  | inr bad ↦ absurd (ground arith)
]
integer-Fits _ w h = cc

pub matching-Fits : (pattern : Text → Bool) → Fits (matching pattern) is_string
unfolding matching is_string
matching-Fits pattern (str s) w h = elim (Bool-cases (pattern s)) [
  | inl good ↦ let same : str s ≡ w = ground arith in rw (← same) refl
  | inr bad ↦ absurd (ground arith)
]
matching-Fits pattern _ w h = cc

pub literal-Fits : (expected : Text) → Fits (literal expected) (is_literal expected)
unfolding literal is_literal
literal-Fits expected (str s) w h = elim (Bool-cases (text_eq s expected)) [
  | inl good ↦ let same : str expected ≡ w = ground arith in rw (← same) (text_eq_refl expected)
  | inr bad ↦ absurd (ground arith)
]
literal-Fits expected _ w h = cc

known :
    (values : List Text) (s : Text)
    → is_one_of values (str s) ≡ true
    → is_known values (str s) ≡ true
unfolding is_known is_one_of
known values s h = elim (Bool-cases (text_eq (codes "unknown") s)) [
  | inl unknown ↦ rw unknown refl
  | inr other ↦ rw other h
]

unknown : (values : List Text) → is_known values (str (codes "unknown")) ≡ true
unfolding is_known is_one_of
unknown values = refl

pub known_or_unknown-Fits : (values : List Text) → Fits (known_or_unknown values) (is_known values)
unfolding known_or_unknown
known_or_unknown-Fits values (str s) w h = elim (Bool-cases (is_one_of values (str s))) [
  | inl good ↦ let same : str s ≡ w = ground arith in rw (← same) (known values s good)
  | inr bad ↦ let same : str (codes "unknown") ≡ w = ground arith in rw (← same) (unknown values)
]
known_or_unknown-Fits values _ w h = cc

nullable-other : (shape : Shape) (w : Value) → shape w ≡ true → is_nullable shape w ≡ true
unfolding is_nullable
nullable-other shape null h = refl
nullable-other shape undef h = h
nullable-other shape (flag b) h = h
nullable-other shape (num n) h = h
nullable-other shape (str s) h = h
nullable-other shape (arr vs) h = h
nullable-other shape (obj fs) h = h

pub or_null-Fits :
    (read : Reader) (shape : Shape) → Fits read shape → Fits (or_null read) (is_nullable shape)
unfolding or_null is_nullable
or_null-Fits read shape fits null w h = let same : null ≡ w = ground arith in rw (← same) refl
or_null-Fits read shape fits undef w h = nullable-other shape w (fits undef w h)
or_null-Fits read shape fits (flag b) w h = nullable-other shape w (fits (flag b) w h)
or_null-Fits read shape fits (num n) w h = nullable-other shape w (fits (num n) w h)
or_null-Fits read shape fits (str s) w h = nullable-other shape w (fits (str s) w h)
or_null-Fits read shape fits (arr vs) w h = nullable-other shape w (fits (arr vs) w h)
or_null-Fits read shape fits (obj fs) w h = nullable-other shape w (fits (obj fs) w h)

pub text_or_null-Fits : Fits text_or_null (is_nullable is_string)
unfolding text_or_null
text_or_null-Fits = or_null-Fits text is_string text-Fits

pub ruleset typing = (
  text-Fits, boolean-Fits, numeric-Fits, integer-Fits, whole_number-Fits, any_record-Fits,
  literal-Fits, literal_flag-Fits, matching-Fits, one_of-Fits, known_or_unknown-Fits, or_null-Fits,
  text_or_null-Fits, list_of-Fits,
)
