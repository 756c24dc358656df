-- ===== src/Value.antt =====
-- Values of unknown type, as `JSON.parse` gives them, and the readers of
-- frontend/services/validation.ts.
mod Json
pub mod Readers
pub mod Laws
pub mod Stable
pub mod Exact
pub mod Interface
pub mod Typed
unfoldable pub use Json.*
unfoldable pub use Readers.*
