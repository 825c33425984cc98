-- ===== src/State.antt =====
-- The state that the C files share, and the monad of their functions: state that stays written
-- when a function raises.
mod Cells
mod Monad
pub mod Keeps
pub use Cells.*
pub use Monad.*
