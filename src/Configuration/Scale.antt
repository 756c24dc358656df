-- ===== src/Configuration/Scale.antt =====
-- frontend/context/configuration/pattern-scale.ts.
mod Defs
pub mod Steps
unfoldable pub use Defs.*
