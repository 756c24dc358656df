-- ===== src/Patterns.antt =====
-- The built-in patterns: frontend/data/patterns.ts, and the catalogue that a page loads
-- (frontend/services/pattern-catalogue.ts).
mod Defs
mod Resolve
pub mod Distinct
pub mod Sound
pub mod Controller
unfoldable pub use Defs.*
unfoldable pub use Resolve.*
