-- ===== src/Patterns/Distinct.antt =====
-- `findDuplicateValues` finds something exactly where a value comes twice.
use sewn_covers.Prelude.{
  Bool, true, false, not, ◌&&◌, ◌||◌, if◌then◌else◌, List, [], ◌∷◌, ◌++◌, any, ◌≡◌, refl, ◌∙◌,
  arith, Bool-cases, inl, inr,
}
use sewn_covers.Text.{Text, text_eq}
use sewn_covers.Patterns.Defs.{includes}
use sewn_covers.Patterns.Resolve.{add_value, duplicates_from, find_duplicate_values, has_values}

-- No value comes twice.
abbrev pub are_distinct : List Text → Bool
are_distinct [] = true
are_distinct (x ∷ xs) = not (includes xs x) && are_distinct xs

text_eq_comm : (s t : Text) → text_eq s t ≡ text_eq t s
unfolding text_eq
text_eq_comm [] [] = refl
text_eq_comm [] (b ∷ t) = refl
text_eq_comm (a ∷ s) [] = refl
text_eq_comm (a ∷ s) (b ∷ t) = ground (arith, text_eq_comm s t)

includes-append :
    (xs : List Text) (v x : Text) → includes (xs ++ (v ∷ [])) x ≡ (includes xs x || text_eq v x)
unfolding includes
includes-append [] v x = ground arith
includes-append (y ∷ xs) v x = ground (arith, includes-append xs v x)

any-includes-append :
    (vs seen : List Text) (v : Text)
    → any (λ x. includes (seen ++ (v ∷ [])) x) vs ≡ (any (λ x. includes seen x) vs || includes vs v)
unfolding includes
any-includes-append [] seen v = refl
any-includes-append (x ∷ vs) seen v =
    ground (arith, includes-append seen v x, text_eq_comm v x, any-includes-append vs seen v)

has_values-append : (xs : List Text) (v : Text) → has_values (xs ++ (v ∷ [])) ≡ true
has_values-append [] v = refl
has_values-append (x ∷ xs) v = refl

has_values-includes : (xs : List Text) (v : Text) → includes xs v ≡ true → has_values xs ≡ true
unfolding includes
has_values-includes [] v h = cc
has_values-includes (x ∷ xs) v h = refl

has_values-add_value : (v : Text) (xs : List Text) → has_values (add_value v xs) ≡ true
unfolding add_value
has_values-add_value v xs = elim (Bool-cases (includes xs v)) [
  | inl old ↦ rw old (has_values-includes xs v old)
  | inr new ↦ rw new (has_values-append xs v)
]

add_value-new :
    (v : Text) (xs : List Text) → includes xs v ≡ false → add_value v xs ≡ xs ++ (v ∷ [])
unfolding add_value
add_value-new v xs h = rw h refl

has_values-duplicates_from :
    (seen duplicates values : List Text)
    → has_values (duplicates_from seen duplicates values)
      ≡ (has_values duplicates || (any (λ x. includes seen x) values || not (are_distinct values)))
unfolding duplicates_from
has_values-duplicates_from seen duplicates [] = ground arith
has_values-duplicates_from seen duplicates (v ∷ vs) = elim (Bool-cases (includes seen v)) [
  | inl old ↦
      has_values-duplicates_from (add_value v seen)
        (if includes seen v then add_value v duplicates else duplicates) vs
      ∙ rw (old, has_values-add_value v duplicates) (ground arith)
  | inr new ↦
      has_values-duplicates_from (add_value v seen)
        (if includes seen v then add_value v duplicates else duplicates) vs
      ∙ rw (add_value-new v seen new, new, any-includes-append vs seen v) (ground arith)
]

any-false : (xs : List Text) → any (λ x. includes [] x) xs ≡ false
unfolding includes
any-false [] = refl
any-false (x ∷ xs) = any-false xs

-- A list has duplicates exactly where its values are not distinct.
pub has_values-find_duplicate_values :
    (values : List Text) → has_values (find_duplicate_values values) ≡ not (are_distinct values)
unfolding find_duplicate_values
has_values-find_duplicate_values values =
    has_values-duplicates_from [] [] values ∙ rw (any-false values) refl
