-- ===== src/Session/Step.antt =====
-- What a program that uses the extension may do next to the requests: a call of a method on them, a
-- round of the polling thread, a run of the finaliser, or anything that does not reach them. The
-- thread gives way only at `rb_thread_schedule`, so that a round is one step, and so is a method: a
-- switch of threads inside Marshal, which a method may call, is left out, and so is the finaliser of
-- a communicator that a request uses.
use mpi_ruby.Base.{ℕ, ◌<◌, ◌≡◌, ℤ, List, length}
use mpi_ruby.Ruby.{Value}
use mpi_ruby.Mpi.{Env}
use mpi_ruby.State.{Request, World}
use mpi_ruby.Request.{request_free}
use mpi_ruby.Request.Watch.{init_rlist}
use mpi_ruby.Request.Lifecycle.{request_wait, request_test, request_cancel}
use mpi_ruby.Request.Start.{request_start, request_startall}
use mpi_ruby.Request.Poll.{request_thread_round}
use mpi_ruby.Request.Many.{request_waitany, request_waitall}
use mpi_ruby.Request.Testing.{request_waitsome, request_testany, request_testall, request_testsome}
use mpi_ruby.Request.Refines.{requests}
use mpi_ruby.Request.Sane.{Unlisted}
use mpi_ruby.Comm.{CommStruct}
use mpi_ruby.Comm.Immediate.{
  comm_isend, comm_issend, comm_ibsend, comm_irsend, comm_recv_init, comm_irecv, comm_send_init,
  comm_bsend_init, comm_ssend_init, comm_rsend_init,
}

-- Fewer requests than cells are on the list.
abbrev pub HasRoom : World → Type 0
HasRoom w = length (requests w.rlist) < w.capacity

-- The state after a method is the one that it leaves, also where it raises. `irecv` and `start` are
-- called while the list has room, the finaliser runs for a request that is not on the list.
pub data Step (env : Env) : World → World → Type 0 where
  isend :
      (mc : CommStruct) (raw : Request) (len : ℤ) (obj dest tag : Value) (w : World)
      → Step env w (comm_isend env mc raw len obj dest tag w).1
  issend :
      (mc : CommStruct) (raw : Request) (len : ℤ) (obj dest tag : Value) (w : World)
      → Step env w (comm_issend env mc raw len obj dest tag w).1
  ibsend :
      (mc : CommStruct) (raw : Request) (len : ℤ) (obj dest tag : Value) (w : World)
      → Step env w (comm_ibsend env mc raw len obj dest tag w).1
  irsend :
      (mc : CommStruct) (raw : Request) (len : ℤ) (obj dest tag : Value) (w : World)
      → Step env w (comm_irsend env mc raw len obj dest tag w).1
  irecv :
      (mc : CommStruct) (raw : Request) (src tag : Value) (w : World)
      → HasRoom w
      → Step env w (comm_irecv env mc raw src tag w).1
  recv_init :
      (mc : CommStruct) (raw : Request) (src tag : Value) (w : World)
      → Step env w (comm_recv_init env mc raw src tag w).1
  send_init :
      (mc : CommStruct) (raw : Request) (obj dest tag : Value) (w : World)
      → Step env w (comm_send_init env mc raw obj dest tag w).1
  bsend_init :
      (mc : CommStruct) (raw : Request) (obj dest tag : Value) (w : World)
      → Step env w (comm_bsend_init env mc raw obj dest tag w).1
  ssend_init :
      (mc : CommStruct) (raw : Request) (obj dest tag : Value) (w : World)
      → Step env w (comm_ssend_init env mc raw obj dest tag w).1
  rsend_init :
      (mc : CommStruct) (raw : Request) (obj dest tag : Value) (w : World)
      → Step env w (comm_rsend_init env mc raw obj dest tag w).1
  start : (self : ℕ) (w : World) → HasRoom w → Step env w (request_start env self w).1
  startall : (rreqs : List ℕ) (w : World) → Step env w (request_startall env rreqs w).1
  wait : (self : ℕ) (w : World) → Step env w (request_wait env self w).1
  test : (self : ℕ) (w : World) → Step env w (request_test env self w).1
  cancel : (self : ℕ) (w : World) → Step env w (request_cancel env self w).1
  waitany : (rreqs : List ℕ) (w : World) → Step env w (request_waitany env rreqs w).1
  waitall : (rreqs : List ℕ) (w : World) → Step env w (request_waitall env rreqs w).1
  waitsome : (rreqs : List ℕ) (w : World) → Step env w (request_waitsome env rreqs w).1
  testany : (rreqs : List ℕ) (w : World) → Step env w (request_testany env rreqs w).1
  testall : (rreqs : List ℕ) (w : World) → Step env w (request_testall env rreqs w).1
  testsome : (rreqs : List ℕ) (w : World) → Step env w (request_testsome env rreqs w).1
  free : (self : ℕ) (w : World) → Unlisted self w → Step env w (request_free env self w).1
  poll : (w : World) → Step env w (request_thread_round env w).1
  elsewhere :
      (w w' : World)
      → w'.heap ≡ w.heap
      → w'.rlist ≡ w.rlist
      → w'.capacity ≡ w.capacity
      → Step env w w'

-- The states that such a program can be in, from where `Init_Request` has made the list.
pub data Reached (env : Env) (w₀ : World) : World → Type 0 where
  begun : Reached env w₀ (init_rlist w₀)
  later : {w w' : World} → Reached env w₀ w → Step env w w' → Reached env w₀ w'
