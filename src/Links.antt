-- ===== src/Links.antt =====
-- The links of a draft: frontend/services/draft-links.ts.
pub mod Digest
mod Draft
pub mod Protection
unfoldable pub use Digest.*
unfoldable pub use Draft.*
