-- ===== src/Tests.antt =====
-- Runs of the modelled code at concrete inputs, and the theorems at inputs that meet their
-- hypotheses.
pub mod Configuration
pub mod Design
pub mod BrowserDraft
pub mod Value
pub mod ApiClient
pub mod Navigation
pub mod Patterns
pub mod SharedDesign
pub mod Clients
pub mod Review
pub mod Links
pub mod Warmup
