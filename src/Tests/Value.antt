-- ===== src/Tests/Value.antt =====
-- The readers: frontend/services/validation.ts.
use sewn_covers.Prelude.{String, true, some, List, [], ◌∷◌, ◌≡◌, ◌↔◌}
use sewn_covers.Text.{codes}
use sewn_covers.Value.{
  Value, str, flag, arr, obj, Items, nil, cons, Fields, end, field, Reader, text, boolean,
  record_of, list_of,
}
use sewn_covers.Value.Exact.{AreRead, HasRead, record_of-HasRead, list_of-AreRead}

abbrev readers : List (String × Reader)
readers = ("name", text) ∷ ("open", boolean) ∷ []

abbrev fields : Fields
fields = field "open" (flag true) (field "name" (str (codes "a")) end)

abbrev kept : Fields
kept = field "name" (str (codes "a")) (field "open" (flag true) end)

record_of-HasRead_example : (record_of readers (obj fields) ≡ some (obj kept)) ↔ (
    (fs : Fields) × (result : Fields) × (obj fields ≡ obj fs)
    × (obj kept ≡ obj result)
    × HasRead readers fs result)
record_of-HasRead_example = record_of-HasRead readers (obj fields) (obj kept)

abbrev two_names : Value
two_names = arr (cons (str (codes "a")) (cons (str (codes "b")) nil))

list_of-AreRead_example : (list_of text two_names ≡ some two_names) ↔ (
    (vs : Items) × (ws : Items) × (two_names ≡ arr vs) × (two_names ≡ arr ws) × AreRead text vs ws)
list_of-AreRead_example = list_of-AreRead text two_names two_names
