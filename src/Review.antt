-- ===== src/Review.antt =====
-- The review of a design: frontend/components/configurator/review-summary.ts, with the texts of
-- frontend/data/shapes.ts and the formatters of frontend/context/configuration.
mod Shapes
mod Format
mod Summary
pub mod Readiness
unfoldable pub use Shapes.*
unfoldable pub use Format.*
unfoldable pub use Summary.*
unfoldable pub use Readiness.*
