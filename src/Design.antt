-- ===== src/Design.antt =====
-- Public designs: the record that is sent and read back (frontend/services/design-contract.ts), and
-- what a configuration is sent as (frontend/services/design-save.ts).
mod Contract
mod Request
mod Client
pub mod Echo
pub mod Accepted
pub mod Save
pub mod Project
unfoldable pub use Contract.*
unfoldable pub use Request.*
unfoldable pub use Client.*
