-- ===== src/Tests/Navigation.antt =====
-- Sign-in navigation: frontend/services/auth-navigation.ts.
use sewn_covers.Prelude.{true, some, ◌++◌, ◌≡◌, refl}
use sewn_covers.Text.{codes, text_eq, starts_with, is_empty, trim}
use sewn_covers.Navigation.{
  cart, orders, return_path, target_id, normalize_base_path, parse_authentication_return_target,
  return_target_for_path, resolve_authentication_return_destination,
}
use sewn_covers.Navigation.Returns.{is_in_app, resolve-in_app, return_target-return_path}

resolved :
    resolve_authentication_return_destination (some (codes "cart")) (codes " /SewnCovers/ ")
    ≡ some (codes "/SewnCovers/cart/")
unfolding resolve_authentication_return_destination parse_authentication_return_target
    normalize_base_path trim is_empty text_eq
resolved = refl

resolve-in_app_example : is_in_app (codes "/SewnCovers/cart/") ≡ true
resolve-in_app_example =
    resolve-in_app (some (codes "cart")) (codes " /SewnCovers/ ") (codes "/SewnCovers/cart/")
      resolved

return_target-return_path_example :
    (return_target_for_path
        (normalize_base_path (codes "/preview") ++ return_path cart)
        (codes "/preview")
      ≡ some cart)
    × (parse_authentication_return_target (some (target_id cart)) ≡ some cart)
return_target-return_path_example = return_target-return_path cart (codes "/preview")

checkout_run : return_target_for_path (codes "/checkout/return/?session=1") (codes "") ≡ some orders
unfolding return_target_for_path normalize_base_path trim is_empty starts_with
checkout_run = refl
