-- ===== src/Session/Tests.antt =====
-- A short program: two receives with `irecv`, a persistent one that is made and not
-- started, then the polling thread.
use mpi_ruby.Base.{ℤ, subst, ℕ, ◌≡◌, refl, pos, ◌∷◌, none, some, arith, get_elem?}
use mpi_ruby.Ruby.{Value, ok}
use mpi_ruby.Mpi.{Call, Env}
use mpi_ruby.Exception.{mpi_exception, message}
use mpi_ruby.State.{Request, ReqType, Stage, Buf, Entry, World}
use mpi_ruby.Samples.{calm, env_of, fine, start_world, raw_request}
use mpi_ruby.Request.{request_new, new_struct}
use mpi_ruby.Request.Watch.{init_rlist, request_watch, find_empty}
use mpi_ruby.Request.Start.{request_start, start_as, start_receive}
use mpi_ruby.Request.Lifecycle.{request_test}
use mpi_ruby.Request.Poll.{request_thread_round}
use mpi_ruby.Request.Refines.{Sound}
use mpi_ruby.Request.Tidy.{HasMemory, IsSize}
use mpi_ruby.Comm.{fresh_struct}
use mpi_ruby.Comm.Args.{source_arg, tag_arg, fixnum_arg}
use mpi_ruby.Comm.Immediate.{comm_irecv, comm_recv_init}
use mpi_ruby.Session.Step.{Step, Reached}
use mpi_ruby.Session.States.{AllReceive, session_list-Sound, session_round-drains}

abbrev one_posted : World
one_posted =
    (comm_irecv calm (fresh_struct 91) raw_request (Value.fixnum (pos 1)) (Value.fixnum (pos 5))
      (init_rlist start_world)).1

abbrev two_posted : World
two_posted =
    (comm_irecv calm (fresh_struct 91) raw_request (Value.fixnum (pos 2)) (Value.fixnum (pos 5))
      one_posted).1

abbrev three_made : World
three_made =
    (comm_recv_init calm (fresh_struct 91) raw_request (Value.fixnum (pos 3)) (Value.fixnum (pos 5))
      two_posted).1

three_made-Reached : Reached calm start_world three_made
unfolding comm_irecv comm_recv_init source_arg tag_arg fixnum_arg request_new new_struct init_rlist
    request_watch find_empty request_start start_as start_receive mpi_exception message
three_made-Reached =
    Reached.later
      (Reached.later
        (Reached.later Reached.begun (
          Step.irecv (fresh_struct 91) raw_request (Value.fixnum (pos 1)) (Value.fixnum (pos 5))
            (init_rlist start_world) (omega arith)))
        (Step.irecv (fresh_struct 91) raw_request (Value.fixnum (pos 2)) (Value.fixnum (pos 5))
          one_posted (omega arith)))
      (Step.recv_init (fresh_struct 91) raw_request (Value.fixnum (pos 3)) (Value.fixnum (pos 5))
        two_posted)

calm-HasMemory : HasMemory calm
calm-HasMemory = (λ k h. ground (arith, h), λ log c n e. cc e, λ log c. tt)

session_list-Sound_example : Sound three_made × AllReceive three_made.rlist three_made
session_list-Sound_example =
    session_list-Sound calm start_world three_made calm-HasMemory refl three_made-Reached

abbrev arrived : Env
arrived = env_of (λ _ _. record fine { out0 = pos 1; arrived = some (pos 3) })

arrived-HasMemory : HasMemory arrived
arrived-HasMemory =
    (λ k h. ground (arith, h), λ log c n e. subst IsSize (three n e) (omega arith), λ log c. tt)
  where
    three : (n : ℤ) → some (pos 3) ≡ some n → pos 3 ≡ n
    three n e = ground (arith, e)

-- The second receive.
abbrev awaiting : Request
awaiting = record raw_request {
  handle = 40;
  comm = 91;
  type = ReqType.receive;
  peer = pos 2;
  tag = pos 5;
  stage = Stage.tx_size;
  buflen = pos 0;
  buf = Buf.null;
}

session_round-drains_example :
    (request_test arrived 1 three_made ≡ (ok (Value.qfalse, none), three_made))
    × ((request_thread_round arrived three_made).0 ≡ ok tt)
    × (get_elem? (request_thread_round arrived three_made).1.rlist 1 ≡ some Entry.empty)
    × ((handle : ℕ) × ((request_test arrived 1 (request_thread_round arrived three_made).1).1.log
          ≡ Call.test handle ∷ (request_thread_round arrived three_made).1.log))
unfolding comm_irecv comm_recv_init source_arg tag_arg fixnum_arg request_new new_struct init_rlist
    request_watch find_empty request_start start_as start_receive mpi_exception message
session_round-drains_example =
    session_round-drains calm arrived 1 1 awaiting start_world three_made calm-HasMemory refl
      three_made-Reached arrived-HasMemory (λ _ _. refl, λ _ _. refl) refl refl refl
