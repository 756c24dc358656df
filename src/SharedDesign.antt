-- ===== src/SharedDesign.antt =====
-- Opening a shared design: frontend/services/shared-design.ts.
mod Restore
pub mod Controller
pub mod RoundTrip
pub mod Progress
unfoldable pub use Restore.*
