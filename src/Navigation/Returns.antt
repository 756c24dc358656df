-- ===== src/Navigation/Returns.antt =====
-- A return leads into the application, and to the page that a sign-in link stood on.
use sewn_covers.Prelude.{
  Bool, true, false, not, ◌&&◌, ◌==◌, if◌then◌else◌, Option, none, some, [], ◌∷◌, ◌++◌, drop,
  length, ◌≡◌, refl, ap, ◌∙◌, arith, ==_refl,
}
use sewn_covers.Text.{Text, codes, text_eq, is_empty, starts_with}
use sewn_covers.Navigation.Defs.{
  AuthenticationReturnTarget, cart, configure, home, legal, orders, pricing, projects, target_id,
  return_path, normalize_base_path, parse_authentication_return_target, without_base,
  target_of_path, before_query, drop_last_slashes, return_target_for_path, safe_base_path,
  destination_of, production_base_path, resolve_authentication_return_destination,
}

-- A path of this site: it starts with a slash, and the next character is no slash or backslash, which
-- a browser would read as another host.
abbrev pub is_in_app : Text → Bool
is_in_app [] = false
is_in_app (a ∷ []) = a == b'/'
is_in_app (a ∷ b ∷ s) = a == b'/' && not (b == b'/') && not (b == b'\\')

return_path-in_app :
    (b : Bool) (t : AuthenticationReturnTarget)
    → is_in_app ((if b then production_base_path else []) ++ return_path t) ≡ true
return_path-in_app true _ = refl
return_path-in_app false cart = refl
return_path-in_app false configure = refl
return_path-in_app false home = refl
return_path-in_app false legal = refl
return_path-in_app false orders = refl
return_path-in_app false pricing = refl
return_path-in_app false projects = refl

destination-in_app :
    (o : Option AuthenticationReturnTarget) (base_path d : Text)
    → destination_of base_path o ≡ some d
    → is_in_app d ≡ true
destination-in_app none base_path d h = cc
destination-in_app (some t) base_path d h =
    let same : safe_base_path base_path ++ return_path t ≡ d = ground arith in
    rw (← same)
      (return_path-in_app (text_eq (normalize_base_path base_path) production_base_path) t)

-- Whatever the query and the base path are, a destination that a sign-in returns to is a path of this
-- site.
pub resolve-in_app :
    (value : Option Text) (base_path d : Text)
    → resolve_authentication_return_destination value base_path ≡ some d
    → is_in_app d ≡ true
unfolding resolve_authentication_return_destination
resolve-in_app value base_path d h =
    destination-in_app (parse_authentication_return_target value) base_path d h

starts_with-append : (p s : Text) → starts_with p (p ++ s) ≡ true
unfolding starts_with
starts_with-append [] s = refl
starts_with-append (a ∷ p) s = rw (==_refl a) (starts_with-append p s)

drop-length : (p s : Text) → drop (length p) (p ++ s) ≡ s
drop-length [] s = refl
drop-length (a ∷ p) s = drop-length p s

without_base-append : (base s : Text) → without_base base (base ++ s) ≡ s
unfolding is_empty
without_base-append [] s = refl
without_base-append (a ∷ base) s = rw (starts_with-append (a ∷ base) s) (drop-length (a ∷ base) s)

path_of_page :
    (t : AuthenticationReturnTarget)
    → target_of_path (drop_last_slashes (before_query (return_path t)) ++ codes "/") ≡ some t
unfolding starts_with text_eq
path_of_page cart = refl
path_of_page configure = refl
path_of_page home = refl
path_of_page legal = refl
path_of_page orders = refl
path_of_page pricing = refl
path_of_page projects = refl

parse-target_id :
    (t : AuthenticationReturnTarget)
    → parse_authentication_return_target (some (target_id t)) ≡ some t
unfolding parse_authentication_return_target text_eq
parse-target_id cart = refl
parse-target_id configure = refl
parse-target_id home = refl
parse-target_id legal = refl
parse-target_id orders = refl
parse-target_id pricing = refl
parse-target_id projects = refl

-- Under every base path, the page of a return target has that target, and its id in the query is
-- parsed as that target.
pub return_target-return_path :
    (t : AuthenticationReturnTarget) (base_path : Text)
    → (return_target_for_path (normalize_base_path base_path ++ return_path t) base_path ≡ some t)
      × (parse_authentication_return_target (some (target_id t)) ≡ some t)
unfolding return_target_for_path
return_target-return_path t base_path = (
  ap (λ p. target_of_path (drop_last_slashes (before_query p) ++ codes "/"))
        (without_base-append (normalize_base_path base_path) (return_path t))
      ∙ path_of_page t,
  parse-target_id t,
)
