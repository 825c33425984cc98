-- ===== src/Startup/Tests.antt =====
-- mpi.c: a start that works, and one that fails.
use mpi_ruby.Base.{none, replicate, ◌≡◌, ◌≢◌, ◌⊎◌, refl, pos, true, false, if◌then◌else◌, ◌==◌}
use mpi_ruby.Ruby.{Value, raised, type_error}
use mpi_ruby.Mpi.{Call, Code, Reply, Env}
use mpi_ruby.Exception.{mpi_exception, message}
use mpi_ruby.State.{Entry}
use mpi_ruby.Samples.{env_of, fine, start_world}
use mpi_ruby.Op.InitPredef.{init_predef_ops, define_ops}
use mpi_ruby.Comm.{fresh_struct, comm_new, init_predef_comms}
use mpi_ruby.Comm.Construct.{comm_dup, comm_create, comm_split, new_comm}
use mpi_ruby.Session.Step.{Reached}
use mpi_ruby.Startup.Methods.{Method, Function, Owner, How, registration}
use mpi_ruby.Startup.Init.{
  init_mpi, init_comm, init_group, init_status, init_request, init_op, init_last,
  init_mpi_exception,
}
use mpi_ruby.Startup.Lookup.{called_with, responds, class_of, Called}
use mpi_ruby.Startup.Laws.{init_mpi-Reached}
use mpi_ruby.Startup.Classes.{Starts}
use mpi_ruby.Startup.Callable.{
  misregistered, registered_methods_called, made_comms_lack_collectives,
}

-- MPI is initialised, and every call succeeds.
abbrev running : Env
running = env_of (λ _ _. record fine { out0 = pos 1 })

-- MPI is initialised, and creates no operation.
abbrev no_ops_reply : Call → Reply
no_ops_reply Call.initialized = record fine { out0 = pos 1 }
no_ops_reply _ = record fine { rv = Code.err_intern }

abbrev without_ops : Env
without_ops = env_of (λ _ c. no_ops_reply c)

init_mpi-Reached_example :
    let w' = (init_mpi without_ops (pos 7) 25 start_world).world in
    (w'.rlist ≡ replicate 16 Entry.empty)
    × (w'.capacity ≡ 16)
    × (w'.op_table
        ≡ replicate 25 (record { proc = Value.qfalse; assigned = false; resize = pos 0 }))
    × (w'.heap ≡ start_world.heap)
    × Reached without_ops start_world w'
init_mpi-Reached_example = init_mpi-Reached without_ops (pos 7) 25 start_world refl

running-Starts : Starts running start_world
running-Starts = (refl, λ _ _. refl)

abbrev rank_method : Method
rank_method = registration Owner.comm How.method "rank" Function.comm_rank 0

registered_methods_called_example :
    ((misregistered rank_method ≡ false)
      × (called_with rank_method 2
          ≡ (if 2 == rank_method.params then Called.reaches else Called.argument_error)))
    ⊎ ((misregistered rank_method ≡ true) × (called_with rank_method 2 ≢ Called.reaches))
unfolding init_mpi init_comm init_group init_status init_request init_op init_last
    init_mpi_exception init_predef_ops define_ops mpi_exception message
registered_methods_called_example =
    registered_methods_called running (pos 7) 25 9 2 start_world rank_method running-Starts refl

abbrev bcast_method : Method
bcast_method = registration Owner.intra_comm How.method "bcast" Function.comm_bcast 2

made_comms_lack_collectives_example :
    let reg = (init_mpi running (pos 7) 25 start_world).registry in
    (responds reg (class_of (init_predef_comms running).0.class) bcast_method.name ≡ true)
    × (responds reg (class_of (init_predef_comms running).1.class) bcast_method.name ≡ true)
    × (responds reg (class_of (comm_new (fresh_struct 40)).class) bcast_method.name ≡ false)
    × (responds reg (class_of (comm_new (fresh_struct 40)).class) bcast_method.name ≡ false)
    × (comm_create running none 5 start_world ≡ (raised type_error, start_world))
unfolding comm_dup comm_split new_comm mpi_exception message
made_comms_lack_collectives_example =
    made_comms_lack_collectives running (pos 7) 25 1 (fresh_struct 91) 5 (Value.fixnum (pos 0))
      (Value.fixnum (pos 0)) start_world start_world
      (comm_dup running (fresh_struct 91) start_world).1
      (comm_split running (fresh_struct 91) (Value.fixnum (pos 0)) (Value.fixnum (pos 0))
        start_world).1
      (comm_new (fresh_struct 40)) (comm_new (fresh_struct 40)) bcast_method running-Starts refl
      refl refl
