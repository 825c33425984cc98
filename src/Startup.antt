-- ===== src/Startup.antt =====
-- mpi.c and main.c: how the program starts, and what it registers with Ruby.
mod Methods
mod Tables
pub mod Init
pub mod Lookup
pub mod Laws
pub mod Classes
pub mod Callable
pub mod Keyvals
pub mod Main
pub mod Texts
mod Tests
