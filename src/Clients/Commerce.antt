-- ===== src/Clients/Commerce.antt =====
-- frontend/services/commerce-api.ts and frontend/data/carriers.ts: what the answers hold, and the
-- requests.
mod Tables
pub mod Carriers
pub mod Interfaces
pub mod Stable
pub mod Typed
mod Calls
pub mod Results
unfoldable pub use Tables.*
unfoldable pub use Calls.*
