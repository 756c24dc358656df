-- ===== src/Clients/Commerce/Tables.antt =====
-- The readers of frontend/services/commerce-api.ts.
use sewn_covers.Prelude.{String, true, List, [], ◌∷◌, ◌++◌}
use sewn_covers.Text.{Text, codes}
use sewn_covers.Value.{
  Reader, text, boolean, numeric, integer, whole_number, any_record, literal, literal_flag, one_of,
  known_or_unknown, or_null, text_or_null, record_of, list_of,
}
use sewn_covers.Clients.Commerce.Carriers.{carrier_ids}

abbrev pub quote_statuses : List Text
quote_statuses = codes "active" ∷ codes "expired" ∷ codes "checked_out" ∷ codes "cancelled" ∷ []

abbrev pub cart_states : List Text
cart_states = codes "active" ∷ codes "checkout_pending" ∷ codes "closed" ∷ []

abbrev pub order_states : List Text
order_states =
    codes "payment_pending"
    ∷ codes "paid"
    ∷ codes "production_review"
    ∷ codes "approved_for_production"
    ∷ codes "in_production"
    ∷ codes "quality_check"
    ∷ codes "ready_to_ship"
    ∷ codes "shipped"
    ∷ codes "delivered"
    ∷ codes "cancelled"
    ∷ codes "refund_pending"
    ∷ codes "refunded"
    ∷ codes "manual_review_required"
    ∷ []

abbrev pub payment_statuses : List Text
payment_statuses =
    codes "pending"
    ∷ codes "paid"
    ∷ codes "failed"
    ∷ codes "cancelled"
    ∷ codes "refund_pending"
    ∷ codes "refunded"
    ∷ codes "manual_review"
    ∷ []

abbrev pub price_book_states : List Text
price_book_states = codes "draft" ∷ codes "published" ∷ []

abbrev pub read_pricing_component : Reader
read_pricing_component =
    record_of (("code", text) ∷ ("label", text) ∷ ("amountMinor", integer) ∷ ("basis", text) ∷ [])

abbrev pub pricing_fields : List (String × Reader)
pricing_fields =
    ("demonstration", literal_flag true)
    ∷ ("modelLabel", text)
    ∷ ("priceBookVersion", whole_number)
    ∷ ("currency", literal (codes "CAD"))
    ∷ ("quantity", whole_number)
    ∷ ("unitAmountMinor", whole_number)
    ∷ ("subtotalAmountMinor", whole_number)
    ∷ ("subtotalFormatted", text)
    ∷ ("breakdown", list_of read_pricing_component)
    ∷ ("taxTreatment", text)
    ∷ ("shippingTreatment", text)
    ∷ []

abbrev pub read_pricing : Reader
read_pricing = record_of pricing_fields

abbrev pub read_quote : Reader
read_quote = record_of (
    pricing_fields
    ++ (("id", text)
        ∷ ("status", known_or_unknown quote_statuses)
        ∷ ("projectVersionId", text_or_null)
        ∷ ("configuration", any_record)
        ∷ ("createdAt", text)
        ∷ ("expiresAt", text)
        ∷ ("canCheckout", boolean)
        ∷ ("customAsset", or_null any_record)
        ∷ []))

abbrev pub read_cart_line : Reader
read_cart_line = record_of (
    ("id", text)
    ∷ ("quote", read_quote)
    ∷ ("quantity", whole_number)
    ∷ ("extendedAmountMinor", whole_number)
    ∷ [])

abbrev pub read_cart : Reader
read_cart = record_of (
    ("id", text)
    ∷ ("demonstration", literal_flag true)
    ∷ ("state", one_of cart_states)
    ∷ ("currency", literal (codes "CAD"))
    ∷ ("lines", list_of read_cart_line)
    ∷ ("subtotalAmountMinor", whole_number)
    ∷ ("subtotalFormatted", text)
    ∷ ("notices", list_of text)
    ∷ [])

abbrev pub read_shipment : Reader
read_shipment = record_of (
    ("carrier", known_or_unknown carrier_ids)
    ∷ ("trackingReference", text)
    ∷ ("trackingUrl", text_or_null)
    ∷ ("shippedAt", text)
    ∷ ("deliveredAt", text_or_null)
    ∷ [])

abbrev pub read_timeline_entry : Reader
read_timeline_entry = record_of (
    ("action", text)
    ∷ ("fromState", text_or_null)
    ∷ ("toState", text_or_null)
    ∷ ("data", any_record)
    ∷ ("createdAt", text)
    ∷ [])

abbrev pub read_order : Reader
read_order = record_of (
    ("id", text)
    ∷ ("reference", text)
    ∷ ("demonstration", boolean)
    ∷ ("createdAt", text)
    ∷ ("state", known_or_unknown order_states)
    ∷ ("paymentStatus", known_or_unknown payment_statuses)
    ∷ ("currency", literal (codes "CAD"))
    ∷ ("subtotalAmountMinor", whole_number)
    ∷ ("taxAmountMinor", whole_number)
    ∷ ("shippingAmountMinor", whole_number)
    ∷ ("totalAmountMinor", whole_number)
    ∷ ("totalFormatted", text)
    ∷ ("lines", list_of any_record)
    ∷ ("shipment", or_null read_shipment)
    ∷ ("shippingAddress", or_null any_record)
    ∷ ("timeline", list_of read_timeline_entry)
    ∷ [])

abbrev pub read_checkout : Reader
read_checkout = record_of (
    ("demonstration", boolean)
    ∷ ("orderId", text)
    ∷ ("orderReference", text)
    ∷ ("checkoutUrl", text)
    ∷ ("expiresAt", text)
    ∷ [])

abbrev pub read_sandbox_checkout : Reader
read_sandbox_checkout = record_of (
    ("demonstration", literal_flag true)
    ∷ ("sessionId", text)
    ∷ ("orderReference", text)
    ∷ ("amountMinor", whole_number)
    ∷ ("currency", literal (codes "CAD"))
    ∷ ("status", text)
    ∷ ("expiresAt", text)
    ∷ [])

abbrev pub read_price_book : Reader
read_price_book = record_of (
    ("id", text)
    ∷ ("version", whole_number)
    ∷ ("label", text)
    ∷ ("state", one_of price_book_states)
    ∷ ("currency", literal (codes "CAD"))
    ∷ ("configuration", any_record)
    ∷ ("effectiveAt", text_or_null)
    ∷ ("createdAt", text)
    ∷ ("publishedAt", text_or_null)
    ∷ [])

abbrev pub read_audit_entry : Reader
read_audit_entry = record_of (
    ("id", numeric)
    ∷ ("actorAccountId", text_or_null)
    ∷ ("action", text)
    ∷ ("targetType", text)
    ∷ ("targetId", text)
    ∷ ("data", any_record)
    ∷ ("createdAt", text)
    ∷ [])

abbrev pub read_production_asset_access : Reader
read_production_asset_access =
    record_of
      (("url", text) ∷ ("expiresAt", text) ∷ ("checksum", text) ∷ ("processingVersion", text) ∷ [])

abbrev pub read_sandbox_completion : Reader
read_sandbox_completion =
    record_of (("received", literal_flag true) ∷ ("duplicate", boolean) ∷ ("outcome", text) ∷ [])

abbrev pub read_quote_list : Reader
read_quote_list = list_of read_quote

abbrev pub read_order_list : Reader
read_order_list = list_of read_order

abbrev pub read_price_book_list : Reader
read_price_book_list = list_of read_price_book

abbrev pub read_audit_list : Reader
read_audit_list = list_of read_audit_entry
