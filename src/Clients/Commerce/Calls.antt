-- ===== src/Clients/Commerce/Calls.antt =====
-- `commerceApi` of frontend/services/commerce-api.ts.
use sewn_covers.Prelude.{String, true, none, some, ◌++◌}
use sewn_covers.Number.{Num}
use sewn_covers.Text.{Text, codes}
use sewn_covers.Value.{Value, undef, flag, str, num, obj, Fields, field, end}
use sewn_covers.Clients.Http.{delete, patch, post, put}
use sewn_covers.Clients.Request.{Call, FailureWording}
use sewn_covers.Clients.Calling.{sending, reading}
use sewn_covers.Clients.Commerce.Tables.{
  read_pricing, read_quote, read_quote_list, read_cart, read_checkout, read_order, read_order_list,
  read_sandbox_checkout, read_sandbox_completion, read_production_asset_access, read_price_book,
  read_price_book_list, read_audit_list,
}

abbrev pub commerce_wording : FailureWording
commerce_wording = record {
  network = codes "The commerce service could not be reached. Try again.";
  timeout = codes "The commerce request timed out. Try again.";
  unreadable = codes "The API returned an unreadable response.";
  malformed = codes "The commerce API response was malformed.";
}

-- `commerceRequest`
abbrev pub commerce_request : Call → Call
commerce_request call = record call { wording = commerce_wording }

-- The calls of the shop.
pub data CommerceCall : Type 0 where
  preview create_quote : (token version : Text) (quantity : Num) → CommerceCall
  quotes cart empty_cart orders : (token : Text) → CommerceCall
  quote add_quote : (token quote : Text) → CommerceCall
  reprice : (token quote : Text) (quantity : Num) → CommerceCall
  change_line : (token line : Text) (quantity : Num) → CommerceCall
  remove_line : (token line : Text) → CommerceCall
  checkout : (token idempotency_key : Text) → CommerceCall
  order : (token order : Text) → CommerceCall
  sandbox_checkout : (session : Text) → CommerceCall
  complete_sandbox : (session : Text) (shipping : Fields) (outcome : Text) → CommerceCall

-- The calls of the administrator.
pub data AdminCall : Type 0 where
  admin_orders price_books audit : (token : Text) → AdminCall
  admin_order refund : (token order : Text) → AdminCall
  transition : (token order target code message : Text) → AdminCall
  shipment : (token order : Text) (body : Fields) → AdminCall
  production_asset_access : (token order : Text) (line : Num) → AdminCall
  create_price_book : (token label : Text) (configuration : Fields) → AdminCall
  update_price_book : (token book label : Text) (configuration : Fields) → AdminCall
  publish_price_book : (token book : Text) → AdminCall

abbrev one_field : String → Value → Value
one_field key value = obj (field key value end)

abbrev two_fields : String → Value → String → Value → Value
two_fields key value other_key other = obj (field key value (field other_key other end))

module _ (encode : Text → Text) (number_text : Num → Text) where
  abbrev pub quote_path : Text → Text
  quote_path id = codes "/commerce/quotes/" ++ encode id

  abbrev pub line_path : Text → Text
  line_path line = codes "/commerce/cart/lines/" ++ encode line

  abbrev pub sandbox_path : Text → Text
  sandbox_path session = codes "/commerce/sandbox/checkouts/" ++ encode session

  abbrev pub order_path : Text → Text
  order_path id = codes "/admin/orders/" ++ encode id

  abbrev pub book_path : Text → Text
  book_path book = codes "/admin/price-books/" ++ encode book

  unfoldable pub commerce_call : CommerceCall → Call
  commerce_call (preview token version quantity) = commerce_request (
      sending post (some token) (codes "/commerce/pricing/preview")
        (two_fields "projectVersionId" (str version) "quantity" (num quantity)) read_pricing)
  commerce_call (create_quote token version quantity) = commerce_request (
      sending post (some token) (codes "/commerce/quotes")
        (two_fields "projectVersionId" (str version) "quantity" (num quantity)) read_quote)
  commerce_call (quotes token) =
      commerce_request (reading (some token) (codes "/commerce/quotes") read_quote_list)
  commerce_call (quote token id) =
      commerce_request (reading (some token) (quote_path id) read_quote)
  commerce_call (reprice token id quantity) = commerce_request (
      sending post (some token) (quote_path id ++ codes "/reprice")
        (one_field "quantity" (num quantity)) read_quote)
  commerce_call (cart token) =
      commerce_request (reading (some token) (codes "/commerce/cart") read_cart)
  commerce_call (add_quote token id) = commerce_request (
      sending post (some token) (codes "/commerce/cart/lines") (one_field "quoteId" (str id))
        read_cart)
  commerce_call (change_line token line quantity) =
      commerce_request (
        sending patch (some token) (line_path line) (one_field "quantity" (num quantity)) read_cart)
  commerce_call (remove_line token line) =
      commerce_request (sending delete (some token) (line_path line) undef read_cart)
  commerce_call (empty_cart token) =
      commerce_request (sending delete (some token) (codes "/commerce/cart/lines") undef read_cart)
  commerce_call (checkout token idempotency_key) = commerce_request (
      sending post (some token) (codes "/commerce/checkout")
        (one_field "idempotencyKey" (str idempotency_key)) read_checkout)
  commerce_call (orders token) =
      commerce_request (reading (some token) (codes "/commerce/orders") read_order_list)
  commerce_call (order token id) =
      commerce_request (reading (some token) (codes "/commerce/orders/" ++ encode id) read_order)
  commerce_call (sandbox_checkout session) =
      commerce_request (reading none (sandbox_path session) read_sandbox_checkout)
  commerce_call (complete_sandbox session shipping outcome) = commerce_request (
      sending post none (sandbox_path session ++ codes "/complete")
        (two_fields "shipping" (obj shipping) "outcome" (str outcome)) read_sandbox_completion)

  unfoldable pub admin_call : AdminCall → Call
  admin_call (admin_orders token) =
      commerce_request (reading (some token) (codes "/admin/orders") read_order_list)
  admin_call (admin_order token id) =
      commerce_request (reading (some token) (order_path id) read_order)
  admin_call (transition token id target code message) = commerce_request (
      sending post (some token) (order_path id ++ codes "/transition")
        (two_fields "targetState" (str target) "reason"
          (two_fields "code" (str code) "message" (str message)))
        read_order)
  admin_call (shipment token id body) =
      commerce_request
        (sending put (some token) (order_path id ++ codes "/shipment") (obj body) read_order)
  admin_call (refund token id) = commerce_request (
      sending post (some token) (order_path id ++ codes "/refund") (one_field "confirm" (flag true))
        read_order)
  admin_call (production_asset_access token id line) = commerce_request (
      sending post (some token)
        (order_path id ++ codes "/lines/" ++ number_text line ++ codes "/asset-access") undef
        read_production_asset_access)
  admin_call (price_books token) =
      commerce_request (reading (some token) (codes "/admin/price-books") read_price_book_list)
  admin_call (create_price_book token label configuration) = commerce_request (
      sending post (some token) (codes "/admin/price-books")
        (two_fields "label" (str label) "configuration" (obj configuration)) read_price_book)
  admin_call (update_price_book token book label configuration) = commerce_request (
      sending patch (some token) (book_path book)
        (two_fields "label" (str label) "configuration" (obj configuration)) read_price_book)
  admin_call (publish_price_book token book) = commerce_request (
      sending post (some token) (book_path book ++ codes "/publish")
        (one_field "confirm" (flag true)) read_price_book)
  admin_call (audit token) =
      commerce_request (reading (some token) (codes "/admin/audit") read_audit_list)
