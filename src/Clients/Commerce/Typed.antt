-- ===== src/Clients/Commerce/Typed.antt =====
-- Every reader of frontend/services/commerce-api.ts returns values of the interface that its type names.
use sewn_covers.Prelude.{[], ◌∷◌}
use sewn_covers.Value.Interface.{
  Fits, record_of-Fits, list_of-Fits, is_string, is_boolean, is_true, is_array, is_interface,
}
use sewn_covers.Value.Typed.{typing}
use sewn_covers.Clients.Commerce.Tables.{
  read_pricing_component, read_pricing, read_quote, read_cart_line, read_cart, read_shipment,
  read_timeline_entry, read_order, read_checkout, read_sandbox_checkout, read_price_book,
  read_audit_entry, read_production_asset_access, read_sandbox_completion, read_quote_list,
  read_order_list, read_price_book_list, read_audit_list,
}
use sewn_covers.Clients.Commerce.Interfaces.{
  audit_entry_interface, cart_interface, cart_line_interface, checkout_interface, is_audit_entry,
  is_cart, is_cart_line, is_checkout, is_order, is_price_book, is_pricing, is_pricing_component,
  is_production_asset_access, is_quote, is_sandbox_checkout, is_shipment, is_timeline_entry,
  order_interface, price_book_interface, pricing_component_interface, pricing_interface,
  production_asset_access_interface, quote_interface, sandbox_checkout_interface,
  shipment_interface, timeline_entry_interface,
}

pub read_pricing_component-Fits : Fits read_pricing_component is_pricing_component
read_pricing_component-Fits = record_of-Fits _ pricing_component_interface (search typing)

pub read_pricing-Fits : Fits read_pricing is_pricing
read_pricing-Fits =
    record_of-Fits _ pricing_interface (search (typing, read_pricing_component-Fits))

pub read_quote-Fits : Fits read_quote is_quote
read_quote-Fits = record_of-Fits _ quote_interface (search (typing, read_pricing_component-Fits))

pub read_cart_line-Fits : Fits read_cart_line is_cart_line
read_cart_line-Fits = record_of-Fits _ cart_line_interface (search (typing, read_quote-Fits))

pub read_cart-Fits : Fits read_cart is_cart
read_cart-Fits = record_of-Fits _ cart_interface (search (typing, read_cart_line-Fits))

pub read_shipment-Fits : Fits read_shipment is_shipment
read_shipment-Fits = record_of-Fits _ shipment_interface (search typing)

pub read_timeline_entry-Fits : Fits read_timeline_entry is_timeline_entry
read_timeline_entry-Fits = record_of-Fits _ timeline_entry_interface (search typing)

pub read_order-Fits : Fits read_order is_order
read_order-Fits =
    record_of-Fits _ order_interface (search (typing, read_shipment-Fits, read_timeline_entry-Fits))

pub read_checkout-Fits : Fits read_checkout is_checkout
read_checkout-Fits = record_of-Fits _ checkout_interface (search typing)

pub read_sandbox_checkout-Fits : Fits read_sandbox_checkout is_sandbox_checkout
read_sandbox_checkout-Fits = record_of-Fits _ sandbox_checkout_interface (search typing)

pub read_price_book-Fits : Fits read_price_book is_price_book
read_price_book-Fits = record_of-Fits _ price_book_interface (search typing)

pub read_audit_entry-Fits : Fits read_audit_entry is_audit_entry
read_audit_entry-Fits = record_of-Fits _ audit_entry_interface (search typing)

pub read_production_asset_access-Fits : Fits read_production_asset_access is_production_asset_access
read_production_asset_access-Fits =
    record_of-Fits _ production_asset_access_interface (search typing)

pub read_sandbox_completion-Fits :
    Fits read_sandbox_completion (
      is_interface
        (("received", is_true) ∷ ("duplicate", is_boolean) ∷ ("outcome", is_string) ∷ []))
read_sandbox_completion-Fits =
    record_of-Fits _
      (("received", is_true) ∷ ("duplicate", is_boolean) ∷ ("outcome", is_string) ∷ [])
      (search typing)

pub read_quote_list-Fits : Fits read_quote_list (is_array is_quote)
read_quote_list-Fits = list_of-Fits _ _ (search (typing, read_quote-Fits))

pub read_order_list-Fits : Fits read_order_list (is_array is_order)
read_order_list-Fits = list_of-Fits _ _ (search (typing, read_order-Fits))

pub read_price_book_list-Fits : Fits read_price_book_list (is_array is_price_book)
read_price_book_list-Fits = list_of-Fits _ _ (search (typing, read_price_book-Fits))

pub read_audit_list-Fits : Fits read_audit_list (is_array is_audit_entry)
read_audit_list-Fits = list_of-Fits _ _ (search (typing, read_audit_entry-Fits))
