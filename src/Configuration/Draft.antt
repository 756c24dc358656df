-- ===== src/Configuration/Draft.antt =====
-- frontend/context/configuration/draft-configuration.ts, and the form in which a configuration is
-- stored (`storableConfiguration` of frontend/services/configurator-draft.ts).
mod Defs
mod Storing
pub mod Sound
pub mod RoundTrip
pub mod Restoring
unfoldable pub use Defs.*
unfoldable pub use Storing.*
