-- ===== src/Diag.antt =====
-- src/modules/diag: the rule engine over the merged event stream.
pub mod Event
pub mod Rule
pub mod Window
pub mod Eval
pub mod Engine
pub mod Rules
pub mod Normalize
pub mod Expand
pub mod Labels
pub mod Session
mod Tests
