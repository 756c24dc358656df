-- ===== src/Design/Client.antt =====
-- The two requests of frontend/services/api-client.ts that send and read public designs.
use sewn_covers.Prelude.{[], ◌∷◌}
use sewn_covers.ApiClient.{get, post, RequestDefinition}
use sewn_covers.Design.Contract.{DesignResponse, read_design_response}

unfoldable pub create_design : RequestDefinition DesignResponse
unfolding read_design_response
create_design = record { method = post; expected_statuses = 201 ∷ []; parse = read_design_response }

unfoldable pub get_design : RequestDefinition DesignResponse
unfolding read_design_response
get_design = record { method = get; expected_statuses = 200 ∷ []; parse = read_design_response }
