-- ===== src/Request/Tests.antt =====
-- mpi_request.c at concrete requests.
use mpi_ruby.Base.{ℕ, ◌≡◌, refl, pos, [], ◌∷◌, some, set, arith}
use mpi_ruby.Ruby.{Value, ok, raised, fault, Fault, other}
use mpi_ruby.Mpi.{Call, Buffer, Datatype, SendMode, Env}
use mpi_ruby.Exception.Laws.{mpi_exception_success}
use mpi_ruby.State.{Request, ReqType, Stage, Entry, Buf, World}
use mpi_ruby.Samples.{calm, env_of, fine, start_world, raw_request}
use mpi_ruby.Request.{NewRequest, request_new, request_free}
use mpi_ruby.Request.Watch.{find_empty, request_watch, request_unwatch}
use mpi_ruby.Request.WatchList.{grown, request_unwatch-request_watch, request_watch_overflows}
use mpi_ruby.Request.Lifecycle.{request_wait}
use mpi_ruby.Request.Start.{request_start, start_as, start_receive}
use mpi_ruby.Request.Poll.{poll_cell}
use mpi_ruby.Request.Restart.{receive_restart_fails}
use mpi_ruby.Request.Persistent.{persistent_send_sends_nothing}
use mpi_ruby.Request.Finalise.{normal_finaliser_faults, freed_on_list_faults}

-- Two pending receives fill the list.
abbrev crowded : World
crowded = record start_world { rlist = Entry.entry 5 ∷ Entry.entry 6 ∷ [] }

abbrev one_pending : World
one_pending = record start_world { rlist = Entry.entry 5 ∷ Entry.empty ∷ [] }

request_unwatch-request_watch_example :
    (request_watch 7 one_pending
      ≡ (ok tt, record one_pending { rlist = set one_pending.rlist 1 (Entry.entry 7) }))
    × (request_unwatch 7 (request_watch 7 one_pending).1 ≡ (ok tt, one_pending))
unfolding find_empty
request_unwatch-request_watch_example =
    request_unwatch-request_watch 7 1 one_pending (omega arith, tt) refl

request_watch_overflows_example :
    ((request_watch 7 crowded).0 ≡ ok tt)
    × ((request_watch 7 crowded).1.rlist ≡ grown 7 1 crowded.rlist)
    × ((request_watch 8 (request_watch 7 crowded).1).0 ≡ fault Fault.indeterminate)
request_watch_overflows_example = request_watch_overflows 7 8 0 crowded tt refl refl

-- A receive from rank 3 that awaits its size, as the first of the structs.
abbrev pending : Request
pending = record raw_request {
  handle = 40;
  comm = 91;
  type = ReqType.receive;
  obj = Value.qnil;
  peer = pos 3;
  tag = pos 9;
  stage = Stage.tx_size;
  buflen = pos 0;
  buf = Buf.null;
}

abbrev pending_world : World
pending_world = record start_world {
  rlist = Entry.entry 0 ∷ Entry.empty ∷ [];
  heap = some pending ∷ [];
}

-- The size 3 arrives, and object 6 in marshalled form.
abbrev postman : Env
postman = env_of (λ _ _. record fine { arrived = some (pos 3); bytes = 4 ∷ 8 ∷ 7 ∷ 0 ∷ [] })

-- The same receive after it has been waited for.
abbrev waited : Request
waited = record pending { stage = Stage.tx_data }

abbrev waited_world : World
waited_world = record start_world { heap = some waited ∷ [] }

receive_restart_fails_example :
    (request_wait postman 0 (request_start postman 0 waited_world).1).0 ≡ raised (other 2)
unfolding request_start start_as start_receive request_watch find_empty
receive_restart_fails_example =
    receive_restart_fails postman 0 waited waited_world (request_start postman 0 waited_world).1
      Value.qtrue refl refl refl refl (ground (arith, mpi_exception_success)) (λ _. refl)

persistent_send_sends_nothing_example :
    (self : ℕ) × (w₁ w₂ : World) × (request_new raw_request
        (NewRequest.of_send ReqType.pssend (Value.object 6) (pos 3) (pos 9) 91)
        start_world
      ≡ (ok self, w₁))
    × (request_start calm self w₁ ≡ (ok Value.qtrue, w₂))
    × (w₂.log
        ≡ Call.isend SendMode.synchronous Buffer.pointer_at
            (pos 0)
            Datatype.mpi_byte
            (pos 3)
            (pos 9)
            91
          ∷ Call.isend SendMode.synchronous
              (Buffer.int_at (pos 0))
              (pos 1)
              Datatype.mpi_int
              (pos 3)
              (pos 9)
              91
          ∷ [])
    × ((request_start calm self w₂).0 ≡ fault Fault.bad_free)
persistent_send_sends_nothing_example =
    persistent_send_sends_nothing calm raw_request ReqType.pssend SendMode.synchronous
      (Value.object 6) (pos 3) (pos 9) 91 (4 ∷ 8 ∷ 7 ∷ []) (4 ∷ 8 ∷ 7 ∷ []) start_world refl refl
      refl (λ _ _. refl)

normal_finaliser_faults_example :
    (self : ℕ) × (w₁ : World) × (request_new raw_request (NewRequest.of_normal 40) start_world
      ≡ (ok self, w₁))
    × ((request_free calm self w₁).0 ≡ fault Fault.bad_free)
normal_finaliser_faults_example = normal_finaliser_faults calm raw_request 40 start_world refl refl

freed_on_list_faults_example :
    (poll_cell calm 0 (request_free calm 0 pending_world).1).0 ≡ fault Fault.dangling
unfolding request_free
freed_on_list_faults_example =
    freed_on_list_faults calm 0 0 pending pending_world (request_free calm 0 pending_world).1 refl
      refl (ground (arith, mpi_exception_success))
