-- ===== src/Value/Exact.antt =====
-- What the readers of lists and of records accept, and what they return.
use sewn_covers.Prelude.{String, some, List, [], ◌∷◌, ◌≡◌, ◌↔◌, refl, sym, ap, ◌∙◌}
use sewn_covers.Value.Json.{Value, arr, obj, Items, nil, cons, Fields, end, field, lookup}
use sewn_covers.Value.Readers.{
  Reader, read_items, read_list, read_fields, record_of, list_of, >>=-eq-some, as_record,
}

-- Item by item, what the reader returned.
abbrev pub AreRead : Reader → Items → Items → Type 0
AreRead read nil nil = Unit {0}
AreRead read (cons v vs) (cons w ws) = (read v ≡ some w) × AreRead read vs ws
AreRead read _ _ = ⊥

read_items→AreRead :
    (read : Reader) (vs ws : Items) → read_items read vs ≡ some ws → AreRead read vs ws
unfolding read_items
read_items→AreRead read nil nil h = tt
read_items→AreRead read nil (cons w ws) h = cc
read_items→AreRead read (cons v vs) nil h =
    let (p, read_v, h1) = >>=-eq-some (read v) _ h in
    let (rest, read_rest, h2) = >>=-eq-some (read_items read vs) _ h1 in cc
read_items→AreRead read (cons v vs) (cons w ws) h =
    let (p, read_v, h1) = >>=-eq-some (read v) _ h in
    let (rest, read_rest, h2) = >>=-eq-some (read_items read vs) _ h1 in
    let first : p ≡ w = cc in
    let others : rest ≡ ws = cc in
    (read_v ∙ ap some first, read_items→AreRead read vs ws (read_rest ∙ ap some others))

AreRead→read_items :
    (read : Reader) (vs ws : Items) → AreRead read vs ws → read_items read vs ≡ some ws
unfolding read_items
AreRead→read_items read nil nil h = refl
AreRead→read_items read nil (cons w ws) h = absurd h
AreRead→read_items read (cons v vs) nil h = absurd h
AreRead→read_items read (cons v vs) (cons w ws) (first, others) =
    rw (first, AreRead→read_items read vs ws others) refl

list_of→AreRead :
    (read : Reader) (value w : Value)
    → list_of read value ≡ some w
    → (vs : Items) × (ws : Items) × (value ≡ arr vs) × (w ≡ arr ws) × AreRead read vs ws
unfolding list_of read_list
list_of→AreRead read (arr vs) w h =
    let (ws, found, h1) = >>=-eq-some (read_items read vs) _ h in
    let same : arr ws ≡ w = cc in (vs, ws, refl, sym same, read_items→AreRead read vs ws found)
list_of→AreRead read _ w h = cc

-- A list is returned exactly where the value is a list whose every item the reader accepts; it has
-- what the reader returned for each item, in their order.
pub list_of-AreRead :
    (read : Reader) (value w : Value)
    → (list_of read value ≡ some w)
      ↔ ((vs : Items) × (ws : Items) × (value ≡ arr vs) × (w ≡ arr ws) × AreRead read vs ws)
unfolding list_of read_list
list_of-AreRead read value w = (
  list_of→AreRead read value w,
  λ (vs, ws, is_list, same, h). rw (is_list, same, AreRead→read_items read vs ws h) refl,
)

-- The keys of the table, in its order, each with what its reader returned for the field of that key,
-- and no other field.
abbrev pub HasRead : List (String × Reader) → Fields → Fields → Type 0
HasRead [] fs end = Unit {0}
HasRead ((key, read) ∷ readers) fs (field k v rest) =
    (k ≡ key) × (read (lookup key fs) ≡ some v) × HasRead readers fs rest
HasRead _ fs _ = ⊥

read_fields→HasRead :
    (readers : List (String × Reader)) (fs result : Fields)
    → read_fields readers fs ≡ some result
    → HasRead readers fs result
unfolding read_fields
read_fields→HasRead [] fs end h = tt
read_fields→HasRead [] fs (field k v rest) h = cc
read_fields→HasRead ((key, read) ∷ readers) fs end h =
    let (p, read_p, h1) = >>=-eq-some (read (lookup key fs)) _ h in
    let (others, read_others, h2) = >>=-eq-some (read_fields readers fs) _ h1 in cc
read_fields→HasRead ((key, read) ∷ readers) fs (field k v rest) h =
    let (p, read_p, h1) = >>=-eq-some (read (lookup key fs)) _ h in
    let (others, read_others, h2) = >>=-eq-some (read_fields readers fs) _ h1 in
    let same_key : k ≡ key = cc in
    let same : p ≡ v = cc in
    let same_rest : others ≡ rest = cc in
    (
      same_key,
      read_p ∙ ap some same,
      read_fields→HasRead readers fs rest (read_others ∙ ap some same_rest),
    )

HasRead→read_fields :
    (readers : List (String × Reader)) (fs result : Fields)
    → HasRead readers fs result
    → read_fields readers fs ≡ some result
unfolding read_fields
HasRead→read_fields [] fs end h = refl
HasRead→read_fields [] fs (field k v rest) h = absurd h
HasRead→read_fields ((key, read) ∷ readers) fs end h = absurd h
HasRead→read_fields ((key, read) ∷ readers) fs (field k v rest) (same, first, others) =
    rw (same, first, HasRead→read_fields readers fs rest others) refl

record_of→HasRead :
    (readers : List (String × Reader)) (value w : Value)
    → record_of readers value ≡ some w
    → (fs : Fields) × (result : Fields) × (value ≡ obj fs)
      × (w ≡ obj result)
      × HasRead readers fs result
unfolding record_of as_record
record_of→HasRead readers (obj fs) w h =
    let (result, found, h1) = >>=-eq-some (read_fields readers fs) _ h in
    let same : obj result ≡ w = cc in
    (fs, result, refl, sym same, read_fields→HasRead readers fs result found)
record_of→HasRead readers _ w h = cc

-- A record is returned exactly where the value is a record of which every reader of the table accepts
-- its field; it has the keys of the table alone, in its order, each with what its reader returned.
pub record_of-HasRead :
    (readers : List (String × Reader)) (value w : Value)
    → (record_of readers value ≡ some w) ↔ (
        (fs : Fields) × (result : Fields) × (value ≡ obj fs)
        × (w ≡ obj result)
        × HasRead readers fs result)
unfolding record_of as_record
record_of-HasRead readers value w = (
  record_of→HasRead readers value w,
  λ (fs, result, is_obj, same, h). rw (is_obj, same, HasRead→read_fields readers fs result h) refl,
)
