-- ===== src/Request/Start.antt =====
-- mpi_request.c: `start` and `startall`.
use mpi_ruby.Base.{ℕ, pos, List, [], ◌∷◌, ◌++◌}
use mpi_ruby.Ruby.{Value, raised}
use mpi_ruby.Mpi.{Call, Datatype, Buffer, SendMode, Env}
use mpi_ruby.Exception.{mpi_exception}
use mpi_ruby.State.{◌>>=◌, ◌>>◌, Request, ReqType, Buf, M, pure, lift, call, checked, load, store}
use mpi_ruby.Request.Memory.{free_buf, freed}
use mpi_ruby.Request.Watch.{request_watch}

-- A persistent send. `buflen` is sent as the size; the second MPI_Isend is given the address of
-- the pointer `buf`, and `buflen` as the count.
unfoldable pub start_send : Env → SendMode → ℕ → Request → M (Unit {0})
start_send env mode self mr = do
  dump ← lift (env.marshal_dump mr.obj)
  lift (free_buf mr.buf)
  store self (record mr { buf = freed mr.buf })
  data_ ← lift (env.string_value_cstr dump)
  let mr₁ = record mr { buf = Buf.borrowed (data_ ++ (0 ∷ [])) }
  store self mr₁
  checked env
      (Call.isend mode (Buffer.int_at mr.buflen) (pos 1) Datatype.mpi_int mr.peer mr.tag mr.comm)
  r ←
      call env
        (Call.isend mode Buffer.pointer_at mr.buflen Datatype.mpi_byte mr.peer mr.tag mr.comm)
  store self (record mr₁ { handle = r.handle })
  lift (mpi_exception r.rv)

-- A receive asks for the size, into `buflen`, and is put on the list.
unfoldable pub start_receive : Env → ℕ → Request → M (Unit {0})
start_receive env self mr = do
  r ← call env (Call.irecv (pos 1) Datatype.mpi_int mr.peer mr.tag mr.comm)
  store self (record mr { handle = r.handle })
  lift (mpi_exception r.rv)
  request_watch self

-- The `switch` of `request_start`.
unfoldable pub start_as : Env → ReqType → ℕ → Request → M (Unit {0})
start_as env ReqType.psend self mr = start_send env SendMode.standard self mr
start_as env ReqType.pbsend self mr = start_send env SendMode.buffered self mr
start_as env ReqType.pssend self mr = start_send env SendMode.synchronous self mr
start_as env ReqType.prsend self mr = start_send env SendMode.ready self mr
start_as env ReqType.receive self mr = start_receive env self mr
start_as env ReqType.normal self mr = do checked env (Call.start mr.handle); pure tt

unfoldable pub request_start : Env → ℕ → M Value
request_start env self = do mr ← load self; start_as env mr.type self mr; pure Value.qtrue

-- The loop of `request_startall`, with the handles gathered so far. For a request that is not
-- NORMAL the code calls `request_start(self)`, and `self` is the class MPI::Request.
unfoldable pub startall_from : Env → List ℕ → List ℕ → M (List ℕ)
startall_from env reqs [] = pure reqs
startall_from env reqs (a ∷ rest) = do
  mr ← load a
  elim mr.type [
    | ReqType.normal ↦ startall_from env (reqs ++ (mr.handle ∷ [])) rest
    | _ ↦ lift (raised env.not_data)
  ]

unfoldable pub request_startall : Env → List ℕ → M Value
request_startall env rreqs = do
  reqs ← startall_from env [] rreqs
  checked env (Call.startall reqs)
  pure Value.qtrue
