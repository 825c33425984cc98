-- ===== src/Comm/Environment.antt =====
-- mpi_comm.c: rank, size, group, abort, barrier; probing, comparison, intercommunicators.
use mpi_ruby.Base.{ℕ, ℤ, eq_int}
use mpi_ruby.Ruby.{Value, rb_bool, is_nonzero, int_of_bool}
use mpi_ruby.Mpi.{Call, Env, Status}
use mpi_ruby.State.{◌>>=◌, ◌>>◌, M, pure, lift, checked}
use mpi_ruby.Comm.Struct.{CommStruct}
use mpi_ruby.Comm.Args.{source_arg, tag_arg}

-- `rv = MPI_...(*mc_comm->comm, &n); mpi_exception(rv); return rb_fix_new(n);`
unfoldable pub int_query : Env → Call → M Value
int_query env c = do r ← checked env c; pure (Value.fixnum r.out0)

unfoldable pub comm_rank : Env → CommStruct → M Value
unfolding int_query
comm_rank env mc = int_query env (Call.comm_rank mc.comm)

unfoldable pub comm_size : Env → CommStruct → M Value
unfolding int_query
comm_size env mc = int_query env (Call.comm_size mc.comm)

unfoldable pub comm_remote_size : Env → CommStruct → M Value
unfolding int_query
comm_remote_size env mc = int_query env (Call.comm_remote_size mc.comm)

-- The handle that `group_new` wraps.
unfoldable pub comm_group : Env → CommStruct → M ℕ
comm_group env mc = do r ← checked env (Call.comm_group mc.comm); pure r.handle

unfoldable pub comm_remote_group : Env → CommStruct → M ℕ
comm_remote_group env mc = do r ← checked env (Call.comm_remote_group mc.comm); pure r.handle

unfoldable pub comm_abort : Env → CommStruct → Value → M Value
comm_abort env mc rerrorcode = do
  errorcode ← lift (env.fix2int rerrorcode)
  checked env (Call.abort mc.comm errorcode)
  pure Value.qtrue

unfoldable pub comm_barrier : Env → CommStruct → M Value
comm_barrier env mc = do checked env (Call.barrier mc.comm); pure Value.qtrue

unfoldable pub comm_probe : Env → CommStruct → Value → Value → M Status
unfolding source_arg tag_arg
comm_probe env mc rsrc rtag = do
  src ← source_arg env rsrc
  tag ← tag_arg env rtag
  r ← checked env (Call.probe src tag mc.comm)
  pure r.status

unfoldable pub comm_iprobe : Env → CommStruct → Value → Value → M (Value × Status)
unfolding source_arg tag_arg
comm_iprobe env mc rsrc rtag = do
  src ← source_arg env rsrc
  tag ← tag_arg env rtag
  r ← checked env (Call.iprobe src tag mc.comm)
  pure (rb_bool (is_nonzero r.out0), r.status)

-- The three comparisons. Both structs are taken from `self`, so that MPI_Comm_compare is given one
-- handle twice and `other` is not read; the `int` of the test goes out as a VALUE.
unfoldable pub compare_self : Env → ℤ → CommStruct → CommStruct → M Value
compare_self env wanted self other = do
  r ← checked env (Call.comm_compare self.comm self.comm)
  pure (env.value_of_word (int_of_bool (eq_int r.out0 wanted)))

unfoldable pub comm_equal : Env → CommStruct → CommStruct → M Value
unfolding compare_self
comm_equal env self other = compare_self env env.mpi_ident self other

unfoldable pub comm_congruent_p : Env → CommStruct → CommStruct → M Value
unfolding compare_self
comm_congruent_p env self other = compare_self env env.mpi_congruent self other

unfoldable pub comm_similar_p : Env → CommStruct → CommStruct → M Value
unfolding compare_self
comm_similar_p env self other = compare_self env env.mpi_similar self other

unfoldable pub comm_inter_p : Env → CommStruct → M Value
comm_inter_p env mc = do
  r ← checked env (Call.comm_test_inter mc.comm)
  pure (rb_bool (is_nonzero r.out0))
