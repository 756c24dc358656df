-- ===== src/Clients/Commerce/Stable.antt =====
-- Every reader of frontend/services/commerce-api.ts accepts what it returns.
use sewn_covers.Value.Laws.{IsStable, record_of-IsStable, list_of-IsStable}
use sewn_covers.Value.Stable.{stability}
use sewn_covers.Clients.Commerce.Tables.{
  read_pricing_component, read_pricing, read_quote, read_cart_line, read_cart, read_shipment,
  read_timeline_entry, read_order, read_checkout, read_sandbox_checkout, read_price_book,
  read_audit_entry, read_production_asset_access, read_sandbox_completion, read_quote_list,
  read_order_list, read_price_book_list, read_audit_list,
}

pub read_pricing_component-IsStable : IsStable read_pricing_component
read_pricing_component-IsStable = record_of-IsStable _ (search stability) (search stability)

pub read_pricing-IsStable : IsStable read_pricing
read_pricing-IsStable =
    record_of-IsStable _ (search (stability, read_pricing_component-IsStable)) (search stability)

pub read_quote-IsStable : IsStable read_quote
read_quote-IsStable =
    record_of-IsStable _ (search (stability, read_pricing_component-IsStable)) (search stability)

pub read_cart_line-IsStable : IsStable read_cart_line
read_cart_line-IsStable =
    record_of-IsStable _ (search (stability, read_quote-IsStable)) (search stability)

pub read_cart-IsStable : IsStable read_cart
read_cart-IsStable =
    record_of-IsStable _ (search (stability, read_cart_line-IsStable)) (search stability)

pub read_shipment-IsStable : IsStable read_shipment
read_shipment-IsStable = record_of-IsStable _ (search stability) (search stability)

pub read_timeline_entry-IsStable : IsStable read_timeline_entry
read_timeline_entry-IsStable = record_of-IsStable _ (search stability) (search stability)

pub read_order-IsStable : IsStable read_order
read_order-IsStable =
    record_of-IsStable _ (search (stability, read_shipment-IsStable, read_timeline_entry-IsStable))
      (search stability)

pub read_checkout-IsStable : IsStable read_checkout
read_checkout-IsStable = record_of-IsStable _ (search stability) (search stability)

pub read_sandbox_checkout-IsStable : IsStable read_sandbox_checkout
read_sandbox_checkout-IsStable = record_of-IsStable _ (search stability) (search stability)

pub read_price_book-IsStable : IsStable read_price_book
read_price_book-IsStable = record_of-IsStable _ (search stability) (search stability)

pub read_audit_entry-IsStable : IsStable read_audit_entry
read_audit_entry-IsStable = record_of-IsStable _ (search stability) (search stability)

pub read_production_asset_access-IsStable : IsStable read_production_asset_access
read_production_asset_access-IsStable = record_of-IsStable _ (search stability) (search stability)

pub read_sandbox_completion-IsStable : IsStable read_sandbox_completion
read_sandbox_completion-IsStable = record_of-IsStable _ (search stability) (search stability)

pub read_quote_list-IsStable : IsStable read_quote_list
read_quote_list-IsStable = list_of-IsStable _ (search (stability, read_quote-IsStable))

pub read_order_list-IsStable : IsStable read_order_list
read_order_list-IsStable = list_of-IsStable _ (search (stability, read_order-IsStable))

pub read_price_book_list-IsStable : IsStable read_price_book_list
read_price_book_list-IsStable = list_of-IsStable _ (search (stability, read_price_book-IsStable))

pub read_audit_list-IsStable : IsStable read_audit_list
read_audit_list-IsStable = list_of-IsStable _ (search (stability, read_audit_entry-IsStable))
