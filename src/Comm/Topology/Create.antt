-- ===== src/Comm/Topology/Create.antt =====
-- mpi_comm.c: `cart_create`, `graph_create` and `cart_sub`, which make communicators.
use mpi_ruby.Base.{List, Option, none, some, length, map, ◌==◌, not, if◌then◌else◌, eq_int, pos}
use mpi_ruby.Ruby.{Value, check_fixnum}
use mpi_ruby.Mpi.{Call, Code, Env}
use mpi_ruby.Exception.{mpi_exception}
use mpi_ruby.State.{◌>>=◌, ◌>>◌, M, pure, lift, checked}
use mpi_ruby.Comm.Struct.{CommStruct, RubyComm}
use mpi_ruby.Comm.Args.{int_array, entries, flags}
use mpi_ruby.Comm.Construct.{new_comm}

-- `mpi_exception(MPI_ERR_ARG); return Qnil;`, where `none` is the nil.
abbrev pub bad_argument : {A : Type 0} → M (Option A)
bad_argument = do lift (mpi_exception Code.err_arg); pure none

-- The C loop fills `dims` and `periods` together; the conversions of `dims` alone can raise.
unfoldable pub comm_cart_create :
    Env → CommStruct → List Value → List Value → Value → M (Option RubyComm)
unfolding new_comm int_array
comm_cart_create env mc rdims rperiods rreorder =
    if not (length rperiods == length rdims) then bad_argument else (do
      lift (check_fixnum rreorder)
      reorder ← lift (env.fix2int rreorder)
      dims ← int_array env rdims
      c ← new_comm env (Call.cart_create mc.comm (length rdims) dims (flags rperiods) reorder)
      pure (some c))

-- `nedges` is the length of `rindex`, as `nnodes` is.
unfoldable pub comm_graph_create : Env → CommStruct → List Value → List Value → Value → M RubyComm
unfolding new_comm int_array
comm_graph_create env mc rindex redges rreorder = do
  let nnodes = length rindex
  let nedges = length rindex
  lift (check_fixnum rreorder)
  reorder ← lift (env.fix2int rreorder)
  index ← int_array env (entries nnodes rindex)
  edges ← int_array env (entries nedges redges)
  new_comm env (Call.graph_create mc.comm nnodes index edges reorder)

-- `remain_dims[i] = rb_ary_entry(rremain_dims, i);` stores the VALUE itself as an `int`.
unfoldable pub comm_cart_sub : Env → CommStruct → List Value → M (Option RubyComm)
unfolding new_comm
comm_cart_sub env mc rremain_dims = do
  r ← checked env (Call.cartdim_get mc.comm)
  if not (eq_int (pos (length rremain_dims)) r.out0) then bad_argument else (do
    c ← new_comm env (Call.cart_sub mc.comm (map env.word_of_value rremain_dims))
    pure (some c))
