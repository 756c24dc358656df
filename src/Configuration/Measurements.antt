-- ===== src/Configuration/Measurements.antt =====
-- frontend/context/configuration/measurements.ts: units, rounding, ranges and the drafts of the
-- number fields.
mod Defs
pub mod Drafts
pub mod Validity
unfoldable pub use Defs.*
unfoldable pub use Drafts.*
