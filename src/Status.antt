-- ===== src/Status.antt =====
-- mpi_status.c: the methods of MPI::Status.
use mpi_ruby.Ruby.{Value, rb_bool, is_nonzero}
use mpi_ruby.Mpi.{Call, Status, Env}
use mpi_ruby.State.{M, pure, ◌>>=◌, call}

unfoldable pub status_source : Status → Value
status_source stat = Value.fixnum stat.source

unfoldable pub status_tag : Status → Value
status_tag stat = Value.fixnum stat.tag

-- The code of MPI_Test_cancelled is not looked at.
unfoldable pub status_cancelled_p : Env → Status → M Value
status_cancelled_p env stat = do
  r ← call env (Call.test_cancelled stat.source stat.tag)
  pure (rb_bool (is_nonzero r.out0))
