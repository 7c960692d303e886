-- ===== src/Machine.antt =====
-- What the code runs on: the Emacs runtime behind its function table, the Rust error values, and the
-- state of the process, in an effect that keeps errors and panics apart.
mod Text
mod Table
mod Fault
mod State
mod Outcomes
unfoldable pub use Text.*
pub use Table.*
unfoldable pub use Fault.*
pub use State.*
pub use Outcomes.*
