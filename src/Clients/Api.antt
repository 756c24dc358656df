-- ===== src/Clients/Api.antt =====
-- The calls of the three clients together.
use sewn_covers.Prelude.{true, ◌≡◌}
use sewn_covers.Number.{Num}
use sewn_covers.Text.{Text}
use sewn_covers.Value.{Value}
use sewn_covers.Value.Interface.{Shape}
use sewn_covers.Clients.Http.{Transport}
use sewn_covers.Clients.Session.{Tab}
use sewn_covers.Clients.Request.{Call, returned, account_request}
use sewn_covers.Clients.Calling.{is_sendable, IsTyped, returned-IsTyped}
use sewn_covers.Clients.Account.{
  AccountCall, ProjectCall, UploadCall, account_call, project_call, upload_call,
}
use sewn_covers.Clients.Account.Results.{
  account_result, project_result, upload_result, account_call-IsTyped, project_call-IsTyped,
  upload_call-IsTyped, account_call-sendable, project_call-sendable, upload_call-sendable,
}
use sewn_covers.Clients.Commerce.{CommerceCall, AdminCall, commerce_call, admin_call}
use sewn_covers.Clients.Commerce.Results.{
  commerce_result, admin_result, commerce_call-IsTyped, admin_call-IsTyped, commerce_call-sendable,
  admin_call-sendable,
}
use sewn_covers.Clients.Assurance.{AssuranceCall, assurance_call}
use sewn_covers.Clients.Assurance.Results.{
  assurance_result, assurance_call-IsTyped, assurance_call-sendable,
}

pub data ClientCall : Type 0 where
  account : AccountCall → ClientCall
  project : ProjectCall → ClientCall
  upload : UploadCall → ClientCall
  commerce : CommerceCall → ClientCall
  admin : AdminCall → ClientCall
  assurance : AssuranceCall → ClientCall

-- The type of what a call returns.
unfoldable pub client_result : ClientCall → Shape
client_result (account c) = account_result c
client_result (project c) = project_result c
client_result (upload c) = upload_result c
client_result (commerce c) = commerce_result c
client_result (admin c) = admin_result c
client_result (assurance c) = assurance_result c

unfoldable pub client_call : (Text → Text) → (Num → Text) → ClientCall → Call
unfolding account_call project_call upload_call commerce_call admin_call assurance_call
client_call encode number_text (account c) = account_call encode number_text c
client_call encode number_text (project c) = project_call encode number_text c
client_call encode number_text (upload c) = upload_call encode number_text c
client_call encode number_text (commerce c) = commerce_call encode number_text c
client_call encode number_text (admin c) = admin_call encode number_text c
client_call encode number_text (assurance c) = assurance_call encode c

module _ (encode : Text → Text) (number_text : Num → Text) where
  client_call-IsTyped :
      (c : ClientCall) → IsTyped (client_call encode number_text c) (client_result c)
  unfolding client_call client_result
  client_call-IsTyped (account c) = account_call-IsTyped encode number_text c
  client_call-IsTyped (project c) = project_call-IsTyped encode number_text c
  client_call-IsTyped (upload c) = upload_call-IsTyped encode number_text c
  client_call-IsTyped (commerce c) = commerce_call-IsTyped encode number_text c
  client_call-IsTyped (admin c) = admin_call-IsTyped encode number_text c
  client_call-IsTyped (assurance c) = assurance_call-IsTyped encode c

  -- Whatever the service answers, a value that a call returns is of the type that the call declares.
  pub client_call-typed :
      (c : ClientCall) (result : Transport) (t : Tab) (v : Value)
      → (account_request (client_call encode number_text c) result t).0 ≡ returned v
      → client_result c v ≡ true
  unfolding client_call
  client_call-typed c result t v h =
      returned-IsTyped (client_call encode number_text c) (client_result c) result t v
        (client_call-IsTyped c) h

  -- No call sends a body with GET, and every call whose answer is not empty has a parser for it.
  client_call-sendable : (c : ClientCall) → is_sendable (client_call encode number_text c) ≡ true
  unfolding client_call
  client_call-sendable (account c) = account_call-sendable encode number_text c
  client_call-sendable (project c) = project_call-sendable encode number_text c
  client_call-sendable (upload c) = upload_call-sendable encode number_text c
  client_call-sendable (commerce c) = commerce_call-sendable encode number_text c
  client_call-sendable (admin c) = admin_call-sendable encode number_text c
  client_call-sendable (assurance c) = assurance_call-sendable encode c
