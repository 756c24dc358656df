-- ===== src/Configuration/Color.antt =====
-- frontend/context/configuration/fabric-color.ts.
mod Defs
pub mod Normal
unfoldable pub use Defs.*
