-- ===== src/Patterns/Defs.antt =====
-- The categories, colours and artwork of frontend/data/patterns.ts, and the types of the catalogue.
use sewn_covers.Prelude.{
  ℕ, Bool, true, false, if◌then◌else◌, Option, none, some, List, [], ◌∷◌, map, any,
}
use sewn_covers.Text.{Text, codes, text_eq}

abbrev pub pattern_catalogue_minimum : ℕ
pattern_catalogue_minimum = 12

abbrev pub pattern_catalogue_maximum : ℕ
pattern_catalogue_maximum = 20

abbrev pub pattern_categories : List (Text × Text)
pattern_categories =
    (codes "botanical", codes "Botanical")
    ∷ (codes "geometric", codes "Geometric")
    ∷ (codes "striped", codes "Striped")
    ∷ (codes "woven", codes "Woven")
    ∷ (codes "abstract", codes "Abstract")
    ∷ []

abbrev pub pattern_colors : List (Text × Text)
pattern_colors =
    (codes "ivory", codes "Ivory")
    ∷ (codes "green", codes "Green")
    ∷ (codes "terracotta", codes "Terracotta")
    ∷ (codes "blue", codes "Blue")
    ∷ (codes "gold", codes "Gold")
    ∷ (codes "charcoal", codes "Charcoal")
    ∷ (codes "rose", codes "Rose")
    ∷ []

abbrev pub pattern_artwork_by_id : List (Text × Text)
pattern_artwork_by_id =
    (codes "prototype-botanical", codes "prototype-pattern-botanical")
    ∷ (codes "fern-trail", codes "pattern-fern-trail")
    ∷ (codes "meadow-sprig", codes "pattern-meadow-sprig")
    ∷ (codes "prototype-geometric", codes "prototype-pattern-geometric")
    ∷ (codes "diamond-path", codes "pattern-diamond-path")
    ∷ (codes "arch-grid", codes "pattern-arch-grid")
    ∷ (codes "harbor-stripe", codes "pattern-harbor-stripe")
    ∷ (codes "orchard-stripe", codes "pattern-orchard-stripe")
    ∷ (codes "ribbon-stripe", codes "pattern-ribbon-stripe")
    ∷ (codes "prototype-woven", codes "prototype-pattern-woven")
    ∷ (codes "basket-check", codes "pattern-basket-check")
    ∷ (codes "linen-crosshatch", codes "pattern-linen-crosshatch")
    ∷ (codes "terrace-wave", codes "pattern-terrace-wave")
    ∷ (codes "pebble-drift", codes "pattern-pebble-drift")
    ∷ (codes "confetti-grid", codes "pattern-confetti-grid")
    ∷ []

-- The names that every object inherits from `Object.prototype`.
abbrev pub inherited_names : List Text
inherited_names =
    codes "constructor"
    ∷ codes "hasOwnProperty"
    ∷ codes "isPrototypeOf"
    ∷ codes "propertyIsEnumerable"
    ∷ codes "toLocaleString"
    ∷ codes "toString"
    ∷ codes "valueOf"
    ∷ codes "__defineGetter__"
    ∷ codes "__defineSetter__"
    ∷ codes "__lookupGetter__"
    ∷ codes "__lookupSetter__"
    ∷ codes "__proto__"
    ∷ []

-- What `patternArtworkById[id]` is: a class name, or something that the object inherits.
pub data Artwork : Type 0 where
  class_name : Text → Artwork
  inherited : Artwork

pub record PatternDefinition : Type 0 where
  pub category_id : Text
  pub color_ids : List Text
  pub description : Text
  pub id : Text
  pub name : Text
  pub preview_class_name : Artwork

abbrev pub all_pattern_categories : Text
all_pattern_categories = codes "all-categories"

abbrev pub all_pattern_colors : Text
all_pattern_colors = codes "all-colors"

pub record PatternFilters : Type 0 where
  pub category_id : Text
  pub color_id : Text

pub data PatternCatalogueResult : Type 0 where
  empty loading : PatternCatalogueResult
  error : List Text → PatternCatalogueResult
  ready : List PatternDefinition → PatternCatalogueResult

-- `values.includes(value)`
unfoldable pub includes : List Text → Text → Bool
unfolding text_eq
includes values value = any (λ v. text_eq v value) values

abbrev pub value_of : List (Text × Text) → Text → Option Text
value_of [] key = none
value_of ((k, v) ∷ entries) key = if text_eq k key then some v else value_of entries key

abbrev pub keys : List (Text × Text) → List Text
keys entries = map (λ entry. entry.0) entries

unfoldable pub is_pattern_category_id : Text → Bool
unfolding includes
is_pattern_category_id value = includes (keys pattern_categories) value

unfoldable pub is_pattern_color_id : Text → Bool
unfolding includes
is_pattern_color_id value = includes (keys pattern_colors) value

abbrev inherited_artwork : Bool → Option Artwork
inherited_artwork true = some inherited
inherited_artwork false = none

abbrev own_or_inherited : Option Text → Bool → Option Artwork
own_or_inherited (some name) names = some (class_name name)
own_or_inherited none names = inherited_artwork names

-- `patternArtworkById[id]`
unfoldable pub artwork_of : Text → Option Artwork
unfolding text_eq includes
artwork_of id = own_or_inherited (value_of pattern_artwork_by_id id) (includes inherited_names id)

-- `getPatternArtworkClassName`, which reads own names only.
unfoldable pub get_pattern_artwork_class_name : Text → Option Text
unfolding text_eq
get_pattern_artwork_class_name id = value_of pattern_artwork_by_id id

abbrev label_or_id : Option Text → Text → Text
label_or_id (some label) id = label
label_or_id none id = id

unfoldable pub get_pattern_category_label : Text → Text
unfolding text_eq
get_pattern_category_label id = label_or_id (value_of pattern_categories id) id

unfoldable pub get_pattern_color_labels : List Text → List Text
unfolding text_eq
get_pattern_color_labels ids = map (λ id. label_or_id (value_of pattern_colors id) id) ids

unfoldable pub find_pattern : List PatternDefinition → Text → Option PatternDefinition
unfolding text_eq
find_pattern [] id = none
find_pattern (p ∷ ps) id = if text_eq p.id id then some p else find_pattern ps id

unfoldable pub get_pattern_by_id : List PatternDefinition → Option Text → Option PatternDefinition
unfolding find_pattern
get_pattern_by_id patterns none = none
get_pattern_by_id patterns (some id) = find_pattern patterns id
