-- ===== src/Configuration/Reducer.antt =====
-- frontend/context/configuration/reducer.ts. The reducer throws where a conversion does.
mod Defs
pub mod Units
pub mod Restore
pub mod Invariant
unfoldable pub use Defs.*
