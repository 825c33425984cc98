-- ===== src/ModuleFunctions.antt =====
-- mpi.c: the functions of the module MPI, but for the two clocks.
use mpi_ruby.Base.{List, length, cells, map}
use mpi_ruby.Ruby.{Value, Bytes, rb_bool, is_nonzero, check_fixnum}
use mpi_ruby.Mpi.{Call, Env}
use mpi_ruby.State.{M, pure, ◌>>=◌, ◌>>◌, lift, checked}
use mpi_ruby.Comm.Args.{int_array}
use mpi_ruby.Keyval.Attributes.{str_new}

unfoldable pub mpi_initialized_p : Env → M Value
mpi_initialized_p env = do r ← checked env Call.initialized; pure (rb_bool (is_nonzero r.out0))

-- `buf` is large enough for what MPI writes.
unfoldable pub mpi_processor_name : Env → M Bytes
mpi_processor_name env = do r ← checked env Call.processor_name; lift (str_new env r.bytes r.out0)

-- The `int`s of the result go out as VALUEs.
unfoldable pub mpi_dims_create : Env → Value → List Value → M (List Value)
mpi_dims_create env rnnodes rdims = do
  lift (check_fixnum rnnodes)
  nnodes ← lift (env.fix2int rnnodes)
  dims ← int_array env rdims
  r ← checked env (Call.dims_create nnodes (length rdims) dims)
  pure (map env.value_of_word (cells (length rdims) env.junk_int r.array0))
