-- ===== src/Navigation.antt =====
-- Where a sign-in returns to: frontend/services/auth-navigation.ts and frontend/config/base-path.ts.
mod Defs
pub mod Returns
unfoldable pub use Defs.*
