-- ===== src/Value/Laws.antt =====
-- Readers are tolerant of unknown fields and strict about the known ones.
use text.Mathlib.Text.{◌==◌}
use text.Mathlib.TextPositions.{eq_refl}
use sewn_covers.Prelude.{String, false, some, List, [], ◌∷◌, ◌≡◌, refl, arith}
use sewn_covers.Value.Json.{Value, obj, arr, Items, nil, cons, Fields, field, lookup}
use sewn_covers.Value.Readers.{
  Reader, read_items, read_list, read_fields, record_of, list_of, >>=-eq-some, as_record,
}

-- No reader of the table is for this key.
abbrev pub IsUnlisted : String → List (String × Reader) → Type 0
IsUnlisted key [] = Unit {0}
IsUnlisted key ((k, _) ∷ readers) = ((key == k) ≡ false) × IsUnlisted key readers

read_fields-field :
    (readers : List (String × Reader)) (key : String) (v : Value) (fs : Fields)
    → IsUnlisted key readers
    → read_fields readers (field key v fs) ≡ read_fields readers fs
unfolding read_fields lookup
read_fields-field [] key v fs h = refl
read_fields-field ((k, read) ∷ readers) key v fs (other, h) =
    rw (other, read_fields-field readers key v fs h)

-- A field whose key the table of a record reader does not list changes nothing in what is read.
record_of-field :
    (readers : List (String × Reader)) (key : String) (v : Value) (fs : Fields)
    → IsUnlisted key readers
    → record_of readers (obj (field key v fs)) ≡ record_of readers (obj fs)
unfolding record_of
record_of-field readers key v fs h = rw (read_fields-field readers key v fs h)

-- A reader that accepts what it returns.
abbrev pub IsStable : Reader → Type 0
IsStable read = (v w : Value) → read v ≡ some w → read w ≡ some w

abbrev pub AreStable : List (String × Reader) → Type 0
AreStable [] = Unit {0}
AreStable ((_, read) ∷ readers) = IsStable read × AreStable readers

abbrev pub AreDistinct : List (String × Reader) → Type 0
AreDistinct [] = Unit {0}
AreDistinct ((k, _) ∷ readers) = IsUnlisted k readers × AreDistinct readers

read_fields-stable :
    (readers : List (String × Reader)) (fs result : Fields)
    → AreStable readers
    → AreDistinct readers
    → read_fields readers fs ≡ some result
    → read_fields readers result ≡ some result
unfolding read_fields lookup
read_fields-stable [] fs result st d h = ground arith
read_fields-stable ((k, read) ∷ readers) fs result (st, sts) (d, ds) h =
    let (v, read_v, h1) = >>=-eq-some (read (lookup k fs)) _ h in
    let (rest, read_rest, h2) = >>=-eq-some (read_fields readers fs) _ h1 in
    let same : field k v rest ≡ result = cc in
    rw (← same) (
      rw (
        eq_refl k,
        st (lookup k fs) v read_v,
        read_fields-field readers k v rest d,
        read_fields-stable readers fs rest sts ds read_rest,
      ))

-- Reading what a record reader returned gives it again, if its readers are stable and its keys
-- distinct.
pub record_of-IsStable :
    (readers : List (String × Reader))
    → AreStable readers
    → AreDistinct readers
    → IsStable (record_of readers)
unfolding record_of as_record
record_of-IsStable readers st d value w h =
    let (fs, is_obj, h1) = >>=-eq-some (as_record value) _ h in
    let (result, found, h2) = >>=-eq-some (read_fields readers fs) _ h1 in
    let same : obj result ≡ w = cc in
    rw (← same) (rw (read_fields-stable readers fs result st d found))

read_items-stable :
    (read : Reader) (vs ws : Items)
    → IsStable read
    → read_items read vs ≡ some ws
    → read_items read ws ≡ some ws
unfolding read_items
read_items-stable read nil ws st h = ground arith
read_items-stable read (cons v vs) ws st h =
    let (p, read_v, h1) = >>=-eq-some (read v) _ h in
    let (rest, read_rest, h2) = >>=-eq-some (read_items read vs) _ h1 in
    let same : cons p rest ≡ ws = cc in
    rw (← same) (rw (st v p read_v, read_items-stable read vs rest st read_rest))

-- Reading what a list reader returned gives it again, if the reader of its items is stable.
pub list_of-IsStable : (read : Reader) → IsStable read → IsStable (list_of read)
unfolding list_of read_list
list_of-IsStable read st (arr vs) w h =
    let (ws, found, h1) = >>=-eq-some (read_items read vs) _ h in
    let same : arr ws ≡ w = cc in rw (← same) (rw (read_items-stable read vs ws st found))
list_of-IsStable read st _ w h = cc
