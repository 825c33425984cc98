-- ===== src/Request/ListTests.antt =====
-- mpi_request.c at concrete lists of requests.
use mpi_ruby.Base.{◌≡◌, refl, pos, true, [], ◌∷◌, none, some, List, arith, ◌↔◌}
use mpi_ruby.Ruby.{Value, ok}
use mpi_ruby.Mpi.{Env}
use mpi_ruby.State.{Request, ReqType, Stage, Entry, Buf, World}
use mpi_ruby.Samples.{calm, env_of, fine, start_world, raw_request}
use mpi_ruby.Request.Many.{any_awaits, request_waitall}
use mpi_ruby.Request.Testing.{request_testall, request_waitsome, request_testany, request_testsome}
use mpi_ruby.Request.Several.{ObjectIs, several_leave_objects}
use mpi_ruby.Request.Testall.{request_testall-await}
use mpi_ruby.Request.Watch.{init_rlist}
use mpi_ruby.Request.Bag.{size, insert, take_off}
use mpi_ruby.Request.Refines.{
  WatchEvent, run_watch, run_bag, pending, init_rlist-Sound, run_watch-refines,
}

-- Two receives that await their sizes; both are on the list.
abbrev first : Request
first = record raw_request {
  handle = 40;
  type = ReqType.receive;
  stage = Stage.tx_size;
  buflen = pos 0;
  buf = Buf.null;
}

abbrev second : Request
second = record first { handle = 41 }

abbrev two_pending : World
two_pending = record start_world {
  rlist = Entry.entry 1 ∷ Entry.entry 0 ∷ [];
  heap = some first ∷ some second ∷ [];
}

request_testall-await_example :
    (request_testall calm (1 ∷ 0 ∷ []) two_pending ≡ (ok (Value.qfalse, none), two_pending))
    ↔ (any_awaits (second ∷ first ∷ []) ≡ true)
request_testall-await_example =
    request_testall-await calm (1 ∷ 0 ∷ []) (second ∷ first ∷ []) two_pending (refl, (refl, tt))

abbrev arrived : Env
arrived = env_of (λ _ _. record fine { out0 = pos 1; arrived = some (pos 3) })

abbrev three_calls : List WatchEvent
three_calls = WatchEvent.watch 7 ∷ WatchEvent.watch 8 ∷ WatchEvent.unwatch 7 ∷ []

run_watch-refines_example :
    ((run_watch three_calls (init_rlist start_world)).0 ≡ ok tt)
    × ((run_watch three_calls (init_rlist start_world)).1.capacity
        ≡ (init_rlist start_world).capacity)
    × (pending (run_watch three_calls (init_rlist start_world)).1
        ≡ run_bag three_calls (pending (init_rlist start_world)))
unfolding size insert take_off init_rlist
run_watch-refines_example =
    run_watch-refines three_calls (init_rlist start_world) (init_rlist-Sound start_world).0
      (omega arith, (omega arith, tt))

several_leave_objects_example :
    ObjectIs 1 raw_request.obj (request_waitall calm (1 ∷ 0 ∷ []) two_pending).1
    × ObjectIs 1 raw_request.obj (request_waitsome calm (1 ∷ 0 ∷ []) two_pending).1
    × ObjectIs 1 raw_request.obj (request_testany calm (1 ∷ 0 ∷ []) two_pending).1
    × ObjectIs 1 raw_request.obj (request_testall calm (1 ∷ 0 ∷ []) two_pending).1
    × ObjectIs 1 raw_request.obj (request_testsome calm (1 ∷ 0 ∷ []) two_pending).1
several_leave_objects_example =
    several_leave_objects calm (1 ∷ 0 ∷ []) 1 raw_request.obj two_pending
      (λ mr h. ground (arith, h))
