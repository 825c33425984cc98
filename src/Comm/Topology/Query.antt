-- ===== src/Comm/Topology/Query.antt =====
-- mpi_comm.c: what can be asked of a topology.
use mpi_ruby.Base.{ℤ, List, map, cells, pos_part, if◌then◌else◌, eq_int}
use mpi_ruby.Ruby.{Value, rb_bool, is_nonzero, check_fixnum}
use mpi_ruby.Mpi.{Call, Env}
use mpi_ruby.State.{◌>>=◌, ◌>>◌, M, pure, lift, checked}
use mpi_ruby.Comm.Struct.{CommStruct}
use mpi_ruby.Comm.Args.{fixnum_arg, fixnums}

-- The first `n` cells of an `int` array that MPI filled, as the loops read them.
abbrev pub read_ints : Env → ℤ → List ℤ → List ℤ
read_ints env n a = cells (pos_part n) env.junk_int a

-- `MPI_UNDEFINED` and whatever else is neither graph nor Cartesian give MPI::UNDEFINED.
unfoldable pub comm_topo_test : Env → CommStruct → M Value
comm_topo_test env mc = do
  r ← checked env (Call.topo_test mc.comm)
  pure (
      if eq_int r.out0 env.mpi_graph
      then Value.graph
      else if eq_int r.out0 env.mpi_cart
      then Value.cart
      else Value.undefined)

unfoldable pub comm_graphdims_get : Env → CommStruct → M (Value × Value)
comm_graphdims_get env mc = do
  r ← checked env (Call.graphdims_get mc.comm)
  pure (Value.fixnum r.out0, Value.fixnum r.out1)

unfoldable pub comm_graph_get : Env → CommStruct → M (List Value × List Value)
comm_graph_get env mc = do
  d ← checked env (Call.graphdims_get mc.comm)
  r ← checked env (Call.graph_get mc.comm d.out0 d.out1)
  pure (fixnums (read_ints env d.out0 r.array0), fixnums (read_ints env d.out1 r.array1))

unfoldable pub comm_cartdim_get : Env → CommStruct → M Value
comm_cartdim_get env mc = do r ← checked env (Call.cartdim_get mc.comm); pure (Value.fixnum r.out0)

-- `periods[i] ? Qtrue : Qfalse`
abbrev pub rb_flags : List ℤ → List Value
rb_flags = map (λ n. rb_bool (is_nonzero n))

unfoldable pub comm_cart_get : Env → CommStruct → M (List Value × List Value × List Value)
comm_cart_get env mc = do
  d ← checked env (Call.cartdim_get mc.comm)
  r ← checked env (Call.cart_get mc.comm d.out0)
  pure (
    fixnums (read_ints env d.out0 r.array0),
    rb_flags (read_ints env d.out0 r.array1),
    fixnums (read_ints env d.out0 r.array2),
  )

unfoldable pub comm_cart_coords : Env → CommStruct → Value → M (List Value)
unfolding fixnum_arg
comm_cart_coords env mc rrank = do
  rank ← fixnum_arg env rrank
  d ← checked env (Call.cartdim_get mc.comm)
  r ← checked env (Call.cart_coords mc.comm rank d.out0)
  pure (fixnums (read_ints env d.out0 r.array0))

unfoldable pub comm_graph_neighbors_count : Env → CommStruct → Value → M Value
unfolding fixnum_arg
comm_graph_neighbors_count env mc rrank = do
  rank ← fixnum_arg env rrank
  r ← checked env (Call.graph_neighbors_count mc.comm rank)
  pure (Value.fixnum r.out0)

-- The ranks go into the Array as raw words, without `rb_fix_new`.
unfoldable pub comm_graph_neighbors : Env → CommStruct → Value → M (List Value)
unfolding fixnum_arg
comm_graph_neighbors env mc rrank = do
  rank ← fixnum_arg env rrank
  d ← checked env (Call.graph_neighbors_count mc.comm rank)
  r ← checked env (Call.graph_neighbors mc.comm rank d.out0)
  pure (map env.value_of_word (read_ints env d.out0 r.array0))

unfoldable pub comm_cart_shift : Env → CommStruct → Value → Value → M (Value × Value)
comm_cart_shift env mc rdir rdisp = do
  lift (check_fixnum rdir)
  lift (check_fixnum rdisp)
  dir ← lift (env.fix2int rdir)
  disp ← lift (env.fix2int rdisp)
  r ← checked env (Call.cart_shift mc.comm dir disp)
  pure (Value.fixnum r.out0, Value.fixnum r.out1)
