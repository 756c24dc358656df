-- ===== src/Clients/Account.antt =====
-- frontend/services/account-api.ts: what its answers hold, and its requests.
mod Tables
pub mod Interfaces
mod Patterns
pub mod Stable
pub mod Typed
mod Calls
pub mod Upload
pub mod Results
unfoldable pub use Tables.*
unfoldable pub use Calls.*
