-- ===== src/Navigation/Defs.antt =====
-- Base paths and return targets. An absent query parameter is `none`.
use sewn_covers.Prelude.{
  ◌&&◌, ◌||◌, not, ◌==◌, if◌then◌else◌, Option, none, some, List, [], ◌∷◌, ◌++◌, find, drop, length,
}
use mathlib.Core.List.{reverse}
use sewn_covers.Text.{Text, codes, text_eq, is_empty, starts_with, trim}

abbrev pub drop_slashes : Text → Text
drop_slashes [] = []
drop_slashes (c ∷ s) = if c == b'/' then drop_slashes s else c ∷ s

abbrev pub drop_last_slashes : Text → Text
drop_last_slashes s = reverse (drop_slashes (reverse s))

unfoldable pub normalize_base_path : Text → Text
unfolding trim is_empty
normalize_base_path base_path =
    let value = drop_last_slashes (drop_slashes (trim base_path)) in
    if is_empty value then [] else b'/' ∷ value

unfoldable pub with_base_path : Text → Text → Text
unfolding normalize_base_path starts_with
with_base_path path base_path =
    normalize_base_path base_path ++ (if starts_with (codes "/") path then path else b'/' ∷ path)

abbrev pub production_base_path : Text
production_base_path = codes "/SewnCovers"

pub data AuthenticationMode : Type 0 where
  login register : AuthenticationMode

pub data AuthenticationReturnTarget : Type 0 where
  cart configure home legal orders pricing projects : AuthenticationReturnTarget

abbrev pub return_targets : List AuthenticationReturnTarget
return_targets = cart ∷ configure ∷ home ∷ legal ∷ orders ∷ pricing ∷ projects ∷ []

abbrev pub target_id : AuthenticationReturnTarget → Text
target_id cart = codes "cart"
target_id configure = codes "configure"
target_id home = codes "home"
target_id legal = codes "legal"
target_id orders = codes "orders"
target_id pricing = codes "pricing"
target_id projects = codes "projects"

abbrev pub return_path : AuthenticationReturnTarget → Text
return_path cart = codes "/cart/"
return_path configure = codes "/configure/"
return_path home = codes "/"
return_path legal = codes "/legal/"
return_path orders = codes "/orders/"
return_path pricing = codes "/commerce/"
return_path projects = codes "/projects/"

abbrev pub mode_id : AuthenticationMode → Text
mode_id login = codes "login"
mode_id register = codes "register"

unfoldable pub parse_authentication_mode : Option Text → AuthenticationMode
unfolding text_eq
parse_authentication_mode none = login
parse_authentication_mode (some value) =
    if text_eq value (codes "register") then register else login

unfoldable pub parse_authentication_return_target : Option Text → Option AuthenticationReturnTarget
unfolding text_eq
parse_authentication_return_target none = none
parse_authentication_return_target (some value) =
    find (λ t. text_eq (target_id t) value) return_targets

unfoldable pub build_account_href : AuthenticationMode → Option AuthenticationReturnTarget → Text
build_account_href mode none = codes "/account/?mode=" ++ mode_id mode
build_account_href mode (some target) =
    codes "/account/?mode=" ++ (mode_id mode ++ (codes "&returnTo=" ++ target_id target))

-- `split(/[?#]/, 1)[0]`
abbrev pub before_query : Text → Text
before_query [] = []
before_query (c ∷ s) = if c == b'?' || c == b'#' then [] else c ∷ before_query s

abbrev pub without_base : Text → Text → Text
without_base base pathname =
    if not (is_empty base) && starts_with base pathname
    then drop (length base) pathname
    else pathname

abbrev pub target_of_path : Text → Option AuthenticationReturnTarget
target_of_path path =
    if starts_with (codes "/checkout/") path
    then some orders
    else find (λ t. text_eq (return_path t) path) return_targets

unfoldable pub return_target_for_path : Text → Text → Option AuthenticationReturnTarget
unfolding normalize_base_path is_empty starts_with text_eq
return_target_for_path pathname base_path = target_of_path (
    drop_last_slashes (before_query (without_base (normalize_base_path base_path) pathname))
    ++ codes "/")

abbrev pub path_of_target : Option AuthenticationReturnTarget → Option Text
path_of_target none = none
path_of_target (some target) = some (return_path target)

unfoldable pub resolve_authentication_return_path : Option Text → Option Text
unfolding parse_authentication_return_target
resolve_authentication_return_path value = path_of_target (parse_authentication_return_target value)

abbrev pub safe_base_path : Text → Text
safe_base_path base_path =
    if text_eq (normalize_base_path base_path) production_base_path
    then production_base_path
    else []

abbrev pub destination_of : Text → Option AuthenticationReturnTarget → Option Text
destination_of base_path none = none
destination_of base_path (some target) = some (safe_base_path base_path ++ return_path target)

unfoldable pub resolve_authentication_return_destination : Option Text → Text → Option Text
unfolding parse_authentication_return_target normalize_base_path text_eq
resolve_authentication_return_destination value base_path =
    destination_of base_path (parse_authentication_return_target value)
