-- ===== src/Comm/Tests.antt =====
-- mpi_comm.c at concrete communicators and messages.
use mpi_ruby.Base.{◌≡◌, ◌≢◌, ◌⊎◌, refl, ℤ, pos, List, [], ◌∷◌, some, map, String, arith}
use mpi_ruby.Ruby.{Value, ok, raised, type_error, mpi_error, truthy, rb_bool}
use mpi_ruby.Mpi.{Call, Code, SendMode, Env}
use mpi_ruby.Exception.Laws.{mpi_exception_success}
use mpi_ruby.State.{Buf}
use mpi_ruby.Samples.{calm, broken, env_of, fine, start_world}
use mpi_ruby.Comm.{CommStruct, fresh_struct, comm_new}
use mpi_ruby.Comm.Args.{fixnums}
use mpi_ruby.Comm.Topology.{comm_cart_create, comm_cart_get, comm_graph_create}
use mpi_ruby.Comm.PointToPoint.{send_object, comm_recv, comm_send}
use mpi_ruby.Comm.Decode.{size_message, data_message, send_object_outcomes}
use mpi_ruby.Comm.RoundTrip.{data_reply, comm_recv-send_object}
use mpi_ruby.Comm.Cartesian.{cart_call, cart_get-cart_create}
use mpi_ruby.Comm.Graph.{graph_call, graph_create_truncates, graph_create_refuses}

abbrev mc : CommStruct
mc = fresh_struct 91

-- The two messages of object 6, whose text has three bytes.
abbrev size_of_6 : Call
size_of_6 = size_message SendMode.standard (pos 3) (pos 2) (pos 9) mc

abbrev data_of_6 : Call
data_of_6 = data_message SendMode.standard (4 ∷ 8 ∷ 7 ∷ []) (pos 3) (pos 2) (pos 9) mc

-- What the receiver's MPI delivers.
abbrev inbox : Env
inbox = env_of (λ _ _. record fine { out0 = pos 3; bytes = 4 ∷ 8 ∷ 7 ∷ 0 ∷ [] })

sent_6 :
    comm_send calm mc
      (pos 3)
      (Value.object 6)
      (Value.fixnum (pos 2))
      (Value.fixnum (pos 9))
      start_world
    ≡ (ok Value.qtrue, record start_world { log = data_of_6 ∷ size_of_6 ∷ [] })
unfolding comm_send
sent_6 = ground (arith, mpi_exception_success)

comm_recv-send_object_example :
    (comm_recv inbox mc (Value.fixnum (pos 1)) (Value.fixnum (pos 9)) start_world).0
    ≡ ok (Value.object 6, (data_reply inbox (pos 1) (pos 9) mc start_world).status)
unfolding comm_send
comm_recv-send_object_example =
    comm_recv-send_object calm inbox SendMode.standard SendMode.standard mc mc 3 (pos 2) (pos 9)
      (pos 1) (pos 9) (Value.object 6) Value.qtrue (Value.object 6) (4 ∷ 8 ∷ 7 ∷ [])
      (4 ∷ 8 ∷ 7 ∷ []) start_world (record start_world { log = data_of_6 ∷ size_of_6 ∷ [] })
      start_world size_of_6 data_of_6 (omega arith) refl refl refl refl sent_6 refl refl refl refl
      refl refl refl refl refl refl

send_object_outcomes_example :
    let out =
      send_object broken SendMode.ready SendMode.standard mc
        (pos 3)
        (Value.object 6)
        (Value.fixnum (pos 2))
        (Value.fixnum (pos 9))
        start_world in
    let c₁ = size_message SendMode.ready (pos 3) (pos 2) (pos 9) mc in
    let c₂ = data_message SendMode.standard (4 ∷ 8 ∷ 7 ∷ []) (pos 3) (pos 2) (pos 9) mc in
    (Code.err_other ≢ Code.success)
      × ((m : String) × (out ≡ (raised (mpi_error m), record start_world { log = c₁ ∷ [] })))
    ⊎ ((Code.err_other ≡ Code.success)
          × (Code.err_other ≢ Code.success)
          × ((m : String) × (out
                ≡ (raised (mpi_error m), record start_world { log = c₂ ∷ c₁ ∷ [] })))
        ⊎ (Code.err_other ≡ Code.success)
          × (Code.err_other ≡ Code.success)
          × (out ≡ (ok Value.qtrue, record start_world { log = c₂ ∷ c₁ ∷ [] })))
send_object_outcomes_example =
    send_object_outcomes broken SendMode.ready SendMode.standard mc (pos 3) (pos 2) (pos 9)
      (Value.object 6) (4 ∷ 8 ∷ 7 ∷ []) (4 ∷ 8 ∷ 7 ∷ []) start_world refl refl refl refl

-- A 2 x 3 grid, periodic in its first dimension.
abbrev grid : List ℤ
grid = pos 2 ∷ pos 3 ∷ []

abbrev wraps : List Value
wraps = Value.object 1 ∷ Value.qnil ∷ []

abbrev grid_call : Call
grid_call = cart_call mc grid wraps (pos 0)

abbrev cartographer : Env
cartographer = env_of (λ _ _. record fine {
  out0 = pos 2;
  array0 = pos 2 ∷ pos 3 ∷ [];
  array1 = pos 1 ∷ pos 0 ∷ [];
  array2 = pos 1 ∷ pos 2 ∷ [];
})

grid_created :
    comm_cart_create cartographer mc (fixnums grid) wraps (Value.fixnum (pos 0)) start_world
    ≡ (ok (some (comm_new (fresh_struct 40))), record start_world { log = grid_call ∷ [] })
unfolding comm_cart_create
grid_created = ground (arith, mpi_exception_success)

cart_get-cart_create_example :
    (comm_cart_get cartographer (comm_new (fresh_struct 40)).struct start_world).0
    ≡ ok (fixnums grid, map (λ v. rb_bool (truthy v)) wraps, fixnums (pos 1 ∷ pos 2 ∷ []))
cart_get-cart_create_example =
    cart_get-cart_create cartographer mc grid (pos 1 ∷ pos 2 ∷ []) wraps (pos 0)
      (comm_new (fresh_struct 40)) grid_call start_world
      (record start_world { log = grid_call ∷ [] }) start_world refl refl (refl, (refl, (refl, tt)))
      grid_created refl refl refl refl refl refl refl

-- Two nodes joined both ways, with a third edge too many, and three nodes with one edge.
graph_create_truncates_example :
    comm_graph_create calm mc
      (fixnums (pos 1 ∷ pos 3 ∷ []))
      (fixnums (pos 1 ∷ pos 0 ∷ pos 1 ∷ []))
      (Value.fixnum (pos 0))
      start_world
    ≡ (
      ok (comm_new (fresh_struct 40)),
      record start_world {
        log = graph_call mc (pos 1 ∷ pos 3 ∷ []) (pos 1 ∷ pos 0 ∷ pos 1 ∷ []) (pos 0) ∷ [];
      },
    )
graph_create_truncates_example =
    graph_create_truncates calm mc (pos 1 ∷ pos 3 ∷ []) (pos 1 ∷ pos 0 ∷ pos 1 ∷ []) (pos 0)
      start_world (omega arith) refl (refl, (refl, tt)) (refl, (refl, (refl, tt))) refl

graph_create_refuses_example :
    comm_graph_create calm mc
      (fixnums (pos 1 ∷ pos 1 ∷ pos 1 ∷ []))
      (fixnums (pos 1 ∷ []))
      (Value.fixnum (pos 0))
      start_world
    ≡ (raised type_error, start_world)
graph_create_refuses_example =
    graph_create_refuses calm mc (pos 1 ∷ pos 1 ∷ pos 1 ∷ []) (pos 1 ∷ []) (pos 0) type_error
      start_world (omega arith) refl (refl, (refl, (refl, tt))) (refl, tt) refl

-- The Array of object 6, and so on, four of them.
abbrev attached : CommStruct
attached = record mc {
  buffer =
      Buf.owned (7 ∷ 7 ∷ 7 ∷ 7 ∷ 7 ∷ 7 ∷ 7 ∷ 7 ∷ 7 ∷ 7 ∷ 7 ∷ 7 ∷ 7 ∷ 7 ∷ 7 ∷ 7 ∷ 7 ∷ 7 ∷ 7 ∷ []);
  bufsize = pos 19;
}
