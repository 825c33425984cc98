-- ===== src/Comm/Topology/Mapping.antt =====
-- mpi_comm.c: ranks from coordinates, and the mappings.
use mpi_ruby.Base.{ℤ, pos, List, [], ◌∷◌, Option, some, length, ◌==◌, not, if◌then◌else◌, eq_int}
use mpi_ruby.Ruby.{Value}
use mpi_ruby.Mpi.{Call, Env}
use mpi_ruby.State.{◌>>=◌, M, pure, lift, checked}
use mpi_ruby.Comm.Struct.{CommStruct}
use mpi_ruby.Comm.Args.{int_array, flags}
use mpi_ruby.Comm.Topology.Create.{bad_argument}

unfoldable pub comm_cart_rank : Env → CommStruct → List Value → M (Option Value)
unfolding int_array
comm_cart_rank env mc rcoords = do
  d ← checked env (Call.cartdim_get mc.comm)
  if not (eq_int (pos (length rcoords)) d.out0) then bad_argument else (do
    coords ← int_array env rcoords
    r ← checked env (Call.cart_rank mc.comm coords)
    pure (some (Value.fixnum r.out0)))

unfoldable pub comm_cart_map : Env → CommStruct → List Value → List Value → M (Option Value)
unfolding int_array
comm_cart_map env mc rdims rperiods =
    if not (length rperiods == length rdims) then bad_argument else (do
      dims ← int_array env rdims
      r ← checked env (Call.cart_map mc.comm (length rdims) dims (flags rperiods))
      pure (some (Value.fixnum r.out0)))

-- The loop of `comm_graph_map` converts an entry of each array in turn.
unfoldable pub int_arrays : Env → List Value → List Value → M (List ℤ × List ℤ)
int_arrays env [] es = pure ([], [])
int_arrays env (v ∷ vs) [] = pure ([], [])
int_arrays env (v ∷ vs) (e ∷ es) = do
  n ← lift (env.fix2int v)
  k ← lift (env.fix2int e)
  rest ← int_arrays env vs es
  pure (n ∷ rest.0, k ∷ rest.1)

unfoldable pub comm_graph_map : Env → CommStruct → List Value → List Value → M (Option Value)
unfolding int_arrays
comm_graph_map env mc rindex redges =
    if not (length redges == length rindex) then bad_argument else (do
      a ← int_arrays env rindex redges
      r ← checked env (Call.graph_map mc.comm (length rindex) a.0 a.1)
      pure (some (Value.fixnum r.out0)))
