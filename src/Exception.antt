-- ===== src/Exception.antt =====
-- src/mpi_exception.c: a return code of MPI becomes a Ruby exception.
pub mod Laws
mod Tests
use mpi_ruby.Base.{String, Option, none, some}
use mpi_ruby.Ruby.{Outcome, ok, raised, mpi_error}
use mpi_ruby.Mpi.{Code}

-- The message that the `switch` picks; none for MPI_SUCCESS.
unfoldable pub message : Code → Option String
message Code.success = none
message Code.err_buffer = some "Invalid buffer pointer"
message Code.err_count = some "Invalid count argument"
message Code.err_type = some "Invalid datatype argument"
message Code.err_tag = some "Invalid tag argument"
message Code.err_comm = some "Invalid communicator"
message Code.err_rank = some "Invalid rank"
message Code.err_request = some "Invalid request handle"
message Code.err_root = some "Invalid root"
message Code.err_group = some "Invalid group"
message Code.err_op = some "Invalid operation"
message Code.err_topology = some "Invalid topology"
message Code.err_dims = some "Invalid dimension argument"
message Code.err_arg = some "Invalid argument"
message Code.err_unknown = some "Unknown error"
message Code.err_truncate = some "Message truncated on receive"
message Code.err_other = some "Other error"
message Code.err_intern = some "Internal MPI error"
message Code.err_pending = some "Operation not complete"
message Code.err_in_status = some "Error available in status"
message (Code.unlisted _) = some "Unknown error"

-- `mpi_exception`
unfoldable pub mpi_exception : Code → Outcome (Unit {0})
mpi_exception retcode = elim (message retcode) [ none ↦ ok tt | some m ↦ raised (mpi_error m) ]
