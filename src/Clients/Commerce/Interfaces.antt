-- ===== src/Clients/Commerce/Interfaces.antt =====
-- The interfaces of frontend/services/commerce-api.ts.
use sewn_covers.Prelude.{String, List, [], ◌∷◌, ◌++◌}
use sewn_covers.Text.{codes}
use sewn_covers.Value.{is_one_of}
use sewn_covers.Value.Interface.{
  Shape, is_string, is_number, is_boolean, is_true, is_literal, is_known, is_object, is_nullable,
  is_array, is_interface,
}
use sewn_covers.Clients.Commerce.Tables.{
  quote_statuses, cart_states, order_states, payment_statuses, price_book_states,
}
use sewn_covers.Clients.Commerce.Carriers.{carrier_ids}

abbrev pub pricing_component_interface : List (String × Shape)
pricing_component_interface =
    ("code", is_string)
    ∷ ("label", is_string)
    ∷ ("amountMinor", is_number)
    ∷ ("basis", is_string)
    ∷ []

abbrev pub is_pricing_component : Shape
is_pricing_component = is_interface pricing_component_interface

abbrev pub pricing_interface : List (String × Shape)
pricing_interface =
    ("demonstration", is_true)
    ∷ ("modelLabel", is_string)
    ∷ ("priceBookVersion", is_number)
    ∷ ("currency", is_literal (codes "CAD"))
    ∷ ("quantity", is_number)
    ∷ ("unitAmountMinor", is_number)
    ∷ ("subtotalAmountMinor", is_number)
    ∷ ("subtotalFormatted", is_string)
    ∷ ("breakdown", is_array is_pricing_component)
    ∷ ("taxTreatment", is_string)
    ∷ ("shippingTreatment", is_string)
    ∷ []

abbrev pub is_pricing : Shape
is_pricing = is_interface pricing_interface

abbrev pub quote_interface : List (String × Shape)
quote_interface =
    pricing_interface
    ++ (("id", is_string)
        ∷ ("status", is_known quote_statuses)
        ∷ ("projectVersionId", is_nullable is_string)
        ∷ ("configuration", is_object)
        ∷ ("createdAt", is_string)
        ∷ ("expiresAt", is_string)
        ∷ ("canCheckout", is_boolean)
        ∷ ("customAsset", is_nullable is_object)
        ∷ [])

abbrev pub is_quote : Shape
is_quote = is_interface quote_interface

abbrev pub cart_line_interface : List (String × Shape)
cart_line_interface =
    ("id", is_string)
    ∷ ("quote", is_quote)
    ∷ ("quantity", is_number)
    ∷ ("extendedAmountMinor", is_number)
    ∷ []

abbrev pub is_cart_line : Shape
is_cart_line = is_interface cart_line_interface

abbrev pub cart_interface : List (String × Shape)
cart_interface =
    ("id", is_string)
    ∷ ("demonstration", is_true)
    ∷ ("state", is_one_of cart_states)
    ∷ ("currency", is_literal (codes "CAD"))
    ∷ ("lines", is_array is_cart_line)
    ∷ ("subtotalAmountMinor", is_number)
    ∷ ("subtotalFormatted", is_string)
    ∷ ("notices", is_array is_string)
    ∷ []

abbrev pub is_cart : Shape
is_cart = is_interface cart_interface

abbrev pub timeline_entry_interface : List (String × Shape)
timeline_entry_interface =
    ("action", is_string)
    ∷ ("fromState", is_nullable is_string)
    ∷ ("toState", is_nullable is_string)
    ∷ ("data", is_object)
    ∷ ("createdAt", is_string)
    ∷ []

abbrev pub is_timeline_entry : Shape
is_timeline_entry = is_interface timeline_entry_interface

abbrev pub shipment_interface : List (String × Shape)
shipment_interface =
    ("carrier", is_known carrier_ids)
    ∷ ("trackingReference", is_string)
    ∷ ("trackingUrl", is_nullable is_string)
    ∷ ("shippedAt", is_string)
    ∷ ("deliveredAt", is_nullable is_string)
    ∷ []

abbrev pub is_shipment : Shape
is_shipment = is_interface shipment_interface

abbrev pub order_interface : List (String × Shape)
order_interface =
    ("id", is_string)
    ∷ ("reference", is_string)
    ∷ ("demonstration", is_boolean)
    ∷ ("createdAt", is_string)
    ∷ ("state", is_known order_states)
    ∷ ("paymentStatus", is_known payment_statuses)
    ∷ ("currency", is_literal (codes "CAD"))
    ∷ ("subtotalAmountMinor", is_number)
    ∷ ("taxAmountMinor", is_number)
    ∷ ("shippingAmountMinor", is_number)
    ∷ ("totalAmountMinor", is_number)
    ∷ ("totalFormatted", is_string)
    ∷ ("lines", is_array is_object)
    ∷ ("shipment", is_nullable is_shipment)
    ∷ ("shippingAddress", is_nullable is_object)
    ∷ ("timeline", is_array is_timeline_entry)
    ∷ []

abbrev pub is_order : Shape
is_order = is_interface order_interface

abbrev pub checkout_interface : List (String × Shape)
checkout_interface =
    ("demonstration", is_boolean)
    ∷ ("orderId", is_string)
    ∷ ("orderReference", is_string)
    ∷ ("checkoutUrl", is_string)
    ∷ ("expiresAt", is_string)
    ∷ []

abbrev pub is_checkout : Shape
is_checkout = is_interface checkout_interface

abbrev pub sandbox_checkout_interface : List (String × Shape)
sandbox_checkout_interface =
    ("demonstration", is_true)
    ∷ ("sessionId", is_string)
    ∷ ("orderReference", is_string)
    ∷ ("amountMinor", is_number)
    ∷ ("currency", is_literal (codes "CAD"))
    ∷ ("status", is_string)
    ∷ ("expiresAt", is_string)
    ∷ []

abbrev pub is_sandbox_checkout : Shape
is_sandbox_checkout = is_interface sandbox_checkout_interface

abbrev pub price_book_interface : List (String × Shape)
price_book_interface =
    ("id", is_string)
    ∷ ("version", is_number)
    ∷ ("label", is_string)
    ∷ ("state", is_one_of price_book_states)
    ∷ ("currency", is_literal (codes "CAD"))
    ∷ ("configuration", is_object)
    ∷ ("effectiveAt", is_nullable is_string)
    ∷ ("createdAt", is_string)
    ∷ ("publishedAt", is_nullable is_string)
    ∷ []

abbrev pub is_price_book : Shape
is_price_book = is_interface price_book_interface

abbrev pub audit_entry_interface : List (String × Shape)
audit_entry_interface =
    ("id", is_number)
    ∷ ("actorAccountId", is_nullable is_string)
    ∷ ("action", is_string)
    ∷ ("targetType", is_string)
    ∷ ("targetId", is_string)
    ∷ ("data", is_object)
    ∷ ("createdAt", is_string)
    ∷ []

abbrev pub is_audit_entry : Shape
is_audit_entry = is_interface audit_entry_interface

abbrev pub production_asset_access_interface : List (String × Shape)
production_asset_access_interface =
    ("url", is_string)
    ∷ ("expiresAt", is_string)
    ∷ ("checksum", is_string)
    ∷ ("processingVersion", is_string)
    ∷ []

abbrev pub is_production_asset_access : Shape
is_production_asset_access = is_interface production_asset_access_interface
