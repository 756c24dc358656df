-- ===== src/Number.antt =====
-- JavaScript's Number, which frontend/**/*.ts computes with: an IEEE 754 double and the operations
-- of the language that the modelled code uses.
mod Double
mod Arithmetic
mod Decimal
mod Evaluation
pub mod Laws
unfoldable pub use Double.*
unfoldable pub use Arithmetic.*
unfoldable pub use Decimal.*
unfoldable pub use Evaluation.*
