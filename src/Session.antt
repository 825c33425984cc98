-- ===== src/Session.antt =====
-- The methods of mpi_request.c and of mpi_comm.c on requests, one after the other, as a program that
-- uses the extension calls them, and the polling thread between them.
mod Makes
pub mod Step
mod Invariant
mod States
mod Tests
