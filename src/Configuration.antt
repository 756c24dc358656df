-- ===== src/Configuration.antt =====
-- The cushion configuration: frontend/context/configuration, with frontend/data/cover-options.ts.
mod Types
pub mod Measurements
pub mod Scale
pub mod Color
pub mod Cover
pub mod Reducer
pub mod Draft
unfoldable pub use Types.*
