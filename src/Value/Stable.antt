-- ===== src/Value/Stable.antt =====
-- The readers of frontend/services/validation.ts accept what they return.
use sewn_covers.Prelude.{
  Bool, true, false, if◌then◌else◌, none, some, List, ◌≡◌, refl, arith, Bool-cases, inl, inr,
}
use sewn_covers.Number.{is_safe_integer}
use sewn_covers.Text.{Text, codes, text_eq, text_eq_refl}
use sewn_covers.Value.Json.{Value, undef, null, flag, num, str, arr, obj}
use sewn_covers.Value.Readers.{
  Reader, text, boolean, numeric, integer, whole_number, any_record, literal, literal_flag,
  matching, is_one_of, one_of, known_or_unknown, or_null, text_or_null, is_nonnegative_integer,
}
use sewn_covers.Value.Laws.{IsStable, AreStable, AreDistinct, record_of-IsStable, list_of-IsStable}

pub text-IsStable : IsStable text
unfolding text
text-IsStable (str s) w h = ground arith
text-IsStable _ w h = cc

pub boolean-IsStable : IsStable boolean
unfolding boolean
boolean-IsStable (flag b) w h = ground arith
boolean-IsStable _ w h = cc

pub numeric-IsStable : IsStable numeric
unfolding numeric
numeric-IsStable (num n) w h = ground arith
numeric-IsStable _ w h = cc

pub any_record-IsStable : IsStable any_record
unfolding any_record
any_record-IsStable (obj fs) w h = ground arith
any_record-IsStable _ w h = cc

pub literal_flag-IsStable : (b : Bool) → IsStable (literal_flag b)
unfolding literal_flag
literal_flag-IsStable true (flag true) w h = ground arith
literal_flag-IsStable false (flag false) w h = ground arith
literal_flag-IsStable _ _ w h = cc

-- A reader that returns the value itself where a test holds.
tested :
    (test : Value → Bool) (v w : Value)
    → (if test v then some v else none) ≡ some w
    → (if test w then some w else none) ≡ some w
tested test v w h = elim (Bool-cases (test v)) [
  | inl good ↦ let same : v ≡ w = ground arith in rw (← same) (rw good refl)
  | inr bad ↦ absurd (ground arith)
]

pub one_of-IsStable : (values : List Text) → IsStable (one_of values)
unfolding one_of
one_of-IsStable values v w h = tested (is_one_of values) v w h

pub whole_number-IsStable : IsStable whole_number
unfolding whole_number
whole_number-IsStable v w h = tested is_nonnegative_integer v w h

pub integer-IsStable : IsStable integer
unfolding integer
integer-IsStable (num n) w h = elim (Bool-cases (is_safe_integer n)) [
  | inl good ↦ let same : num n ≡ w = ground arith in rw (← same) (rw good refl)
  | inr bad ↦ absurd (ground arith)
]
integer-IsStable _ w h = cc

pub matching-IsStable : (pattern : Text → Bool) → IsStable (matching pattern)
unfolding matching
matching-IsStable pattern (str s) w h = elim (Bool-cases (pattern s)) [
  | inl good ↦ let same : str s ≡ w = ground arith in rw (← same) (rw good refl)
  | inr bad ↦ absurd (ground arith)
]
matching-IsStable pattern _ w h = cc

pub literal-IsStable : (expected : Text) → IsStable (literal expected)
unfolding literal
literal-IsStable expected (str s) w h = elim (Bool-cases (text_eq s expected)) [
  | inl good ↦
      let same : str expected ≡ w = ground arith in rw (← same) (rw (text_eq_refl expected) refl)
  | inr bad ↦ absurd (ground arith)
]
literal-IsStable expected _ w h = cc

known-unknown :
    (values : List Text)
    → known_or_unknown values (str (codes "unknown")) ≡ some (str (codes "unknown"))
unfolding known_or_unknown
known-unknown values = elim (Bool-cases (is_one_of values (str (codes "unknown")))) [
  | inl known ↦ rw known refl
  | inr new ↦ rw new refl
]

pub known_or_unknown-IsStable : (values : List Text) → IsStable (known_or_unknown values)
unfolding known_or_unknown
known_or_unknown-IsStable values (str s) w h = elim (Bool-cases (is_one_of values (str s))) [
  | inl good ↦ let same : str s ≡ w = ground arith in rw (← same) (rw good refl)
  | inr bad ↦
      let same : str (codes "unknown") ≡ w = ground arith in rw (← same) (known-unknown values)
]
known_or_unknown-IsStable values _ w h = cc

or_null-other : (read : Reader) (w : Value) → read w ≡ some w → or_null read w ≡ some w
unfolding or_null
or_null-other read null h = refl
or_null-other read undef h = h
or_null-other read (flag b) h = h
or_null-other read (num n) h = h
or_null-other read (str s) h = h
or_null-other read (arr vs) h = h
or_null-other read (obj fs) h = h

pub or_null-IsStable : (read : Reader) → IsStable read → IsStable (or_null read)
unfolding or_null
or_null-IsStable read st null w h = let same : null ≡ w = ground arith in rw (← same) refl
or_null-IsStable read st undef w h = or_null-other read w (st undef w h)
or_null-IsStable read st (flag b) w h = or_null-other read w (st (flag b) w h)
or_null-IsStable read st (num n) w h = or_null-other read w (st (num n) w h)
or_null-IsStable read st (str s) w h = or_null-other read w (st (str s) w h)
or_null-IsStable read st (arr vs) w h = or_null-other read w (st (arr vs) w h)
or_null-IsStable read st (obj fs) w h = or_null-other read w (st (obj fs) w h)

pub text_or_null-IsStable : IsStable text_or_null
unfolding text_or_null
text_or_null-IsStable = or_null-IsStable text text-IsStable

-- The reader of a table is stable where the readers of the table are.
pub ruleset stability = (
  text-IsStable, boolean-IsStable, numeric-IsStable, integer-IsStable, whole_number-IsStable,
  any_record-IsStable, literal-IsStable, literal_flag-IsStable, matching-IsStable, one_of-IsStable,
  known_or_unknown-IsStable, or_null-IsStable, text_or_null-IsStable, list_of-IsStable,
)
