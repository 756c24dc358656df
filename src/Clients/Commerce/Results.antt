-- ===== src/Clients/Commerce/Results.antt =====
-- What the calls of frontend/services/commerce-api.ts return is of the type that they declare.
use sewn_covers.Prelude.{true, [], ◌∷◌, ◌≡◌, refl}
use sewn_covers.Number.{Num}
use sewn_covers.Text.{Text}
use sewn_covers.Value.Interface.{Shape, is_array, is_boolean, is_interface, is_string, is_true}
use sewn_covers.Clients.Calling.{is_undefined, is_sendable, IsTyped, parses}
use sewn_covers.Clients.Commerce.Calls.{
  CommerceCall, AdminCall, commerce_call, admin_call, preview, create_quote, quotes, quote, reprice,
  cart, add_quote, change_line, remove_line, empty_cart, checkout, orders, order, sandbox_checkout,
  complete_sandbox, admin_orders, admin_order, transition, shipment, refund,
  production_asset_access, price_books, create_price_book, update_price_book, publish_price_book,
  audit,
}
use sewn_covers.Clients.Commerce.Interfaces.{
  is_audit_entry, is_cart, is_checkout, is_order, is_price_book, is_pricing,
  is_production_asset_access, is_quote, is_sandbox_checkout,
}
use sewn_covers.Clients.Commerce.Typed.{
  read_audit_list-Fits, read_cart-Fits, read_checkout-Fits, read_order-Fits, read_order_list-Fits,
  read_price_book-Fits, read_price_book_list-Fits, read_pricing-Fits,
  read_production_asset_access-Fits, read_quote-Fits, read_quote_list-Fits,
  read_sandbox_checkout-Fits, read_sandbox_completion-Fits,
}

abbrev pub commerce_result : CommerceCall → Shape
commerce_result (preview _ _ _) = is_pricing
commerce_result (create_quote _ _ _) = is_quote
commerce_result (quotes _) = is_array is_quote
commerce_result (quote _ _) = is_quote
commerce_result (reprice _ _ _) = is_quote
commerce_result (cart _) = is_cart
commerce_result (add_quote _ _) = is_cart
commerce_result (change_line _ _ _) = is_cart
commerce_result (remove_line _ _) = is_cart
commerce_result (empty_cart _) = is_cart
commerce_result (checkout _ _) = is_checkout
commerce_result (orders _) = is_array is_order
commerce_result (order _ _) = is_order
commerce_result (sandbox_checkout _) = is_sandbox_checkout
commerce_result (complete_sandbox _ _ _) =
    is_interface (("received", is_true) ∷ ("duplicate", is_boolean) ∷ ("outcome", is_string) ∷ [])

abbrev pub admin_result : AdminCall → Shape
admin_result (admin_orders _) = is_array is_order
admin_result (admin_order _ _) = is_order
admin_result (transition _ _ _ _ _) = is_order
admin_result (shipment _ _ _) = is_order
admin_result (refund _ _) = is_order
admin_result (production_asset_access _ _ _) = is_production_asset_access
admin_result (price_books _) = is_array is_price_book
admin_result (create_price_book _ _ _) = is_price_book
admin_result (update_price_book _ _ _ _) = is_price_book
admin_result (publish_price_book _ _) = is_price_book
admin_result (audit _) = is_array is_audit_entry

module _ (encode : Text → Text) (number_text : Num → Text) where
  pub commerce_call-IsTyped :
      (c : CommerceCall) → IsTyped (commerce_call encode number_text c) (commerce_result c)
  unfolding commerce_call is_undefined
  commerce_call-IsTyped (preview _ _ _) = parses _ refl refl read_pricing-Fits
  commerce_call-IsTyped (create_quote _ _ _) = parses _ refl refl read_quote-Fits
  commerce_call-IsTyped (quotes _) = parses _ refl refl read_quote_list-Fits
  commerce_call-IsTyped (quote _ _) = parses _ refl refl read_quote-Fits
  commerce_call-IsTyped (reprice _ _ _) = parses _ refl refl read_quote-Fits
  commerce_call-IsTyped (cart _) = parses _ refl refl read_cart-Fits
  commerce_call-IsTyped (add_quote _ _) = parses _ refl refl read_cart-Fits
  commerce_call-IsTyped (change_line _ _ _) = parses _ refl refl read_cart-Fits
  commerce_call-IsTyped (remove_line _ _) = parses _ refl refl read_cart-Fits
  commerce_call-IsTyped (empty_cart _) = parses _ refl refl read_cart-Fits
  commerce_call-IsTyped (checkout _ _) = parses _ refl refl read_checkout-Fits
  commerce_call-IsTyped (orders _) = parses _ refl refl read_order_list-Fits
  commerce_call-IsTyped (order _ _) = parses _ refl refl read_order-Fits
  commerce_call-IsTyped (sandbox_checkout _) = parses _ refl refl read_sandbox_checkout-Fits
  commerce_call-IsTyped (complete_sandbox _ _ _) = parses _ refl refl read_sandbox_completion-Fits

  pub commerce_call-sendable :
      (c : CommerceCall) → is_sendable (commerce_call encode number_text c) ≡ true
  unfolding commerce_call is_sendable is_undefined
  commerce_call-sendable (preview _ _ _) = refl
  commerce_call-sendable (create_quote _ _ _) = refl
  commerce_call-sendable (quotes _) = refl
  commerce_call-sendable (quote _ _) = refl
  commerce_call-sendable (reprice _ _ _) = refl
  commerce_call-sendable (cart _) = refl
  commerce_call-sendable (add_quote _ _) = refl
  commerce_call-sendable (change_line _ _ _) = refl
  commerce_call-sendable (remove_line _ _) = refl
  commerce_call-sendable (empty_cart _) = refl
  commerce_call-sendable (checkout _ _) = refl
  commerce_call-sendable (orders _) = refl
  commerce_call-sendable (order _ _) = refl
  commerce_call-sendable (sandbox_checkout _) = refl
  commerce_call-sendable (complete_sandbox _ _ _) = refl

  pub admin_call-IsTyped :
      (c : AdminCall) → IsTyped (admin_call encode number_text c) (admin_result c)
  unfolding admin_call is_undefined
  admin_call-IsTyped (admin_orders _) = parses _ refl refl read_order_list-Fits
  admin_call-IsTyped (admin_order _ _) = parses _ refl refl read_order-Fits
  admin_call-IsTyped (transition _ _ _ _ _) = parses _ refl refl read_order-Fits
  admin_call-IsTyped (shipment _ _ _) = parses _ refl refl read_order-Fits
  admin_call-IsTyped (refund _ _) = parses _ refl refl read_order-Fits
  admin_call-IsTyped (production_asset_access _ _ _) =
      parses _ refl refl read_production_asset_access-Fits
  admin_call-IsTyped (price_books _) = parses _ refl refl read_price_book_list-Fits
  admin_call-IsTyped (create_price_book _ _ _) = parses _ refl refl read_price_book-Fits
  admin_call-IsTyped (update_price_book _ _ _ _) = parses _ refl refl read_price_book-Fits
  admin_call-IsTyped (publish_price_book _ _) = parses _ refl refl read_price_book-Fits
  admin_call-IsTyped (audit _) = parses _ refl refl read_audit_list-Fits

  pub admin_call-sendable : (c : AdminCall) → is_sendable (admin_call encode number_text c) ≡ true
  unfolding admin_call is_sendable is_undefined
  admin_call-sendable (admin_orders _) = refl
  admin_call-sendable (admin_order _ _) = refl
  admin_call-sendable (transition _ _ _ _ _) = refl
  admin_call-sendable (shipment _ _ _) = refl
  admin_call-sendable (refund _ _) = refl
  admin_call-sendable (production_asset_access _ _ _) = refl
  admin_call-sendable (price_books _) = refl
  admin_call-sendable (create_price_book _ _ _) = refl
  admin_call-sendable (update_price_book _ _ _ _) = refl
  admin_call-sendable (publish_price_book _ _) = refl
  admin_call-sendable (audit _) = refl
