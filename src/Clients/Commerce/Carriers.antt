-- ===== src/Clients/Commerce/Carriers.antt =====
-- frontend/data/carriers.ts: the carriers, and the links to them that a page may show.
use sewn_covers.Prelude.{
  Bool, true, ◌==◌, ==→eq, if◌then◌else◌, Option, none, some, List, [], ◌∷◌, ◌++◌, map, any, find,
  ◌≡◌, ◌⊎◌, ◌↔◌, inl, inr, refl, sym, ap, arith, Bool-cases, and-left, and-right,
}
use sewn_covers.Text.{Text, codes, text_eq, starts_with}

pub record Carrier : Type 0 where
  pub id : Text
  pub name : Text
  pub tracking_origin : Text

abbrev carrier : Text → Text → Text → Carrier
carrier id name origin = record { id = id; name = name; tracking_origin = origin }

abbrev pub carriers : List Carrier
carriers =
    carrier (codes "canada-post") (codes "Canada Post")
      (codes "https://www.canadapost-postescanada.ca/")
    ∷ carrier (codes "ups") (codes "UPS") (codes "https://www.ups.com/")
    ∷ carrier (codes "fedex") (codes "FedEx") (codes "https://www.fedex.com/")
    ∷ carrier (codes "purolator") (codes "Purolator") (codes "https://www.purolator.com/")
    ∷ []

abbrev pub carrier_ids : List Text
carrier_ids = map (λ c. c.id) carriers

abbrev name_or : Option Carrier → Text
name_or (some c) = c.name
name_or none = codes "Unknown carrier"

unfoldable pub carrier_name : Text → Text
unfolding text_eq
carrier_name id = name_or (find (λ c. text_eq c.id id) carriers)

abbrev pub is_tracking : Text → Bool
is_tracking url = any (λ c. starts_with c.tracking_origin url) carriers

-- `safeTrackingUrl`; an empty string is falsy.
unfoldable pub safe_tracking_url : Option Text → Option Text
unfolding starts_with
safe_tracking_url none = none
safe_tracking_url (some []) = none
safe_tracking_url (some (c ∷ s)) = if is_tracking (c ∷ s) then some (c ∷ s) else none

-- The link goes to the site of one of the carriers.
abbrev pub IsAmong : Text → List Carrier → Type 0
IsAmong url [] = ⊥
IsAmong url (c ∷ cs) = ((path : Text) × (url ≡ c.tracking_origin ++ path)) ⊎ IsAmong url cs

starts_with-append : (p s : Text) → starts_with p s ≡ true → (rest : Text) × (s ≡ p ++ rest)
unfolding starts_with
starts_with-append [] s h = (s, refl)
starts_with-append (a ∷ p) [] h = cc
starts_with-append (a ∷ p) (b ∷ s) h =
    let (rest, same) = starts_with-append p s (and-right (a == b) (starts_with p s) h) in
    let first = ==→eq a b (and-left (a == b) (starts_with p s) h) in
    (rest, λ i. sym first i ∷ same i)

append-starts_with : (p rest : Text) → starts_with p (p ++ rest) ≡ true
unfolding starts_with
append-starts_with [] rest = refl
append-starts_with (a ∷ p) rest = ground (arith, append-starts_with p rest)

any-IsAmong :
    (url : Text) (cs : List Carrier)
    → any (λ c. starts_with c.tracking_origin url) cs ≡ true
    → IsAmong url cs
any-IsAmong url [] h = cc
any-IsAmong url (c ∷ cs) h = elim (Bool-cases (starts_with c.tracking_origin url)) [
  | inl here ↦ inl (starts_with-append c.tracking_origin url here)
  | inr other ↦ inr (any-IsAmong url cs (ground arith))
]

IsAmong-any :
    (url : Text) (cs : List Carrier)
    → IsAmong url cs
    → any (λ c. starts_with c.tracking_origin url) cs ≡ true
IsAmong-any url [] h = absurd h
IsAmong-any url (c ∷ cs) (inl (path, same)) =
    rw (same, append-starts_with c.tracking_origin path) refl
IsAmong-any url (c ∷ cs) (inr later) = ground (arith, IsAmong-any url cs later)

empty-not_tracking : is_tracking [] ≡ true → ⊥
unfolding starts_with
empty-not_tracking h = cc

shown-same :
    (url shown : Text)
    → is_tracking url ≡ true
    → (if is_tracking url then some url else none) ≡ some shown
    → url ≡ shown
shown-same url shown good h = ground arith

-- A link is shown exactly where it is an address under the origin of a carrier, and unchanged.
pub safe_tracking_url-IsAmong :
    (url shown : Text)
    → (safe_tracking_url (some url) ≡ some shown) ↔ ((url ≡ shown) × IsAmong url carriers)
unfolding safe_tracking_url
safe_tracking_url-IsAmong [] shown =
    (λ h. cc, λ (same, among). absurd (empty-not_tracking (IsAmong-any [] carriers among)))
safe_tracking_url-IsAmong (c ∷ s) shown = (
  λ h. elim (Bool-cases (is_tracking (c ∷ s))) [
    | inl good ↦ (shown-same (c ∷ s) shown good h, any-IsAmong (c ∷ s) carriers good)
    | inr bad ↦ absurd (ground arith)
  ],
  λ (same, among). rw (IsAmong-any (c ∷ s) carriers among) (ap some same),
)
