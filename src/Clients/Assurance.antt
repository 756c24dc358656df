-- ===== src/Clients/Assurance.antt =====
-- frontend/services/assurance-api.ts: what the answers hold, and the requests.
mod Tables
pub mod Interfaces
pub mod Stable
pub mod Typed
mod Calls
pub mod Results
unfoldable pub use Tables.*
unfoldable pub use Calls.*
