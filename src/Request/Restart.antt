-- ===== src/Request/Restart.antt =====
-- mpi_request.c: a persistent receive that is started again.
use mpi_ruby.Base.{ℕ, pos, ◌≡◌, some, arith, get_elem?, get_elem?-set_over, set}
use mpi_ruby.Ruby.{Value, ok, raised}
use mpi_ruby.Mpi.{Call, Code, Datatype, Env}
use mpi_ruby.Exception.Laws.{mpi_exception_success}
use mpi_ruby.State.{Request, ReqType, Stage, Buf, World}
use mpi_ruby.Request.Watch.{request_watch}
use mpi_ruby.Request.Start.{request_start, start_as, start_receive}
use mpi_ruby.Request.Lifecycle.{request_wait, wait_data, take_object}

-- A start that returns leaves the struct of a receive as it was, but for the handle.
start_receive-heap :
    (env : Env) (self : ℕ) (mr : Request) (w w₁ : World) (v : Value)
    → get_elem? w.heap self ≡ some (some mr)
    → mr.type ≡ ReqType.receive
    → request_start env self w ≡ (ok v, w₁)
    → w₁.heap
      ≡ set w.heap self (
          some (record mr {
            handle =
                (env.reply w.log
                  (Call.irecv (pos 1) Datatype.mpi_int mr.peer mr.tag mr.comm)).handle;
          }))
unfolding request_start start_as start_receive request_watch
start_receive-heap env self mr w w₁ v here type began = ground arith

-- A receive from `recv_init` that has been waited for is in its second stage with a NULL buffer.
-- A start of it that returns leaves both so. A `wait` directly after it, with no round of the
-- polling thread between the two, whose call of MPI succeeds raises what `rb_str_new2(NULL)` raises, whatever MPI delivers.
pub receive_restart_fails :
    (env : Env) (self : ℕ) (mr : Request) (w w₁ : World) (v : Value)
    → get_elem? w.heap self ≡ some (some mr)
    → mr.type ≡ ReqType.receive
    → mr.stage ≡ Stage.tx_data
    → mr.buf ≡ Buf.null
    → request_start env self w ≡ (ok v, w₁)
    → ((h : ℕ) → (env.reply w₁.log (Call.wait h)).rv ≡ Code.success)
    → (request_wait env self w₁).0 ≡ raised env.null_string
unfolding request_wait wait_data take_object
receive_restart_fails env self mr w w₁ v here type stage null began good =
    let kept = start_receive-heap env self mr w w₁ v here type began in
    let h = (env.reply w.log (Call.irecv (pos 1) Datatype.mpi_int mr.peer mr.tag mr.comm)).handle in
    let again : get_elem? w₁.heap self ≡ some (some (record mr { handle = h })) =
      rw kept (get_elem?-set_over w.heap self (some (record mr { handle = h })) here) in
    ground (arith, again, type, stage, null, good h, mpi_exception_success)
