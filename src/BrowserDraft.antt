-- ===== src/BrowserDraft.antt =====
-- The guest's design in progress: frontend/services/configurator-draft.ts.
mod Types
mod Encoding
mod Operations
pub mod Persistence
pub mod Pending
pub mod SignOut
unfoldable pub use Types.*
unfoldable pub use Encoding.*
unfoldable pub use Operations.*
