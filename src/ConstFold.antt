-- ===== src/ConstFold.antt =====
-- src/constantNode.cpp: the constant that propagation finds for an expression. Each consXxx of the
-- source is a function of the width and sign of its enode, of its integer arguments, and of its
-- children with their entries of consEMap; `none` is a failed assertion, which TODO() and Panic()
-- are too.
mod Entry
mod Binary
mod Unary
mod Control
pub mod Copies
pub mod Gaps
pub mod Sound
pub mod Tree
unfoldable pub use Entry.*
unfoldable pub use Binary.*
unfoldable pub use Unary.*
unfoldable pub use Control.*
