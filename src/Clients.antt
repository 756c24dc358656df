-- ===== src/Clients.antt =====
-- The clients of the API beside the public one: frontend/services/http.ts, account-api.ts,
-- commerce-api.ts and assurance-api.ts.
pub mod Http
pub mod Session
pub mod Request
pub mod Calling
pub mod Wait
pub mod RetryAfter
pub mod Account
pub mod Commerce
pub mod Assurance
pub mod Api
unfoldable pub use Http.*
unfoldable pub use Session.*
unfoldable pub use Request.*
