-- ===== src/ApiClient.antt =====
-- The client of the service: frontend/services/api-client.ts.
mod Types
mod Errors
mod Request
mod Responses
pub mod Policy
unfoldable pub use Types.*
unfoldable pub use Errors.*
unfoldable pub use Request.*
unfoldable pub use Responses.*
