-- ===== src/Startup/Init.antt =====
-- `Init_MPI` in mpi.c, and the `Init_` functions that it calls. `stray` is what `idx` of the structs
-- of the predefined operations holds.
use Prim.Native.String.{String}
use mpi_ruby.Base.{ℕ, ℤ, true, false, List, [], ◌∷◌, ◌++◌, Option, none, some}
use mpi_ruby.Ruby.{Fault, Outcome, ok, raised, fault, is_nonzero}
use mpi_ruby.Mpi.{Call, Env}
use mpi_ruby.State.{World}
use mpi_ruby.Op.{MpiOp, init_op_table}
use mpi_ruby.Op.InitPredef.{init_predef_ops}
use mpi_ruby.Request.Watch.{init_rlist}
use mpi_ruby.Comm.{RubyComm, init_predef_comms}
use mpi_ruby.Startup.Methods.{Owner, Method}
use mpi_ruby.Startup.Tables.{
  mpi_methods, predef_comm_methods, comm_methods, collective_methods, other_comm_methods,
  group_methods, status_methods, request_methods, op_methods, keyval_methods,
}

-- What Ruby knows of the extension: the module and its classes, and the methods, in the order of
-- their definition.
pub record Registry : Type 0 where
  pub classes : List Owner
  pub methods : List Method

abbrev pub nothing_defined : Registry
nothing_defined = record { classes = []; methods = [] }

-- `rb_define_module`, `rb_define_class_under`
abbrev pub define_class : Owner → Registry → Registry
define_class c reg = record reg { classes = reg.classes ++ (c ∷ []) }

abbrev pub define_methods : List Method → Registry → Registry
define_methods ms reg = record reg { methods = reg.methods ++ ms }

-- `Init_Comm`
unfoldable pub init_comm : Registry → Registry
init_comm reg = define_methods other_comm_methods (
    define_methods collective_methods (
      define_methods comm_methods (
        define_methods predef_comm_methods
          (define_class Owner.intra_comm (define_class Owner.comm reg)))))

-- `Init_Group`, `Init_Status`, `Init_MPI_Exception`; nothing calls `Init_Keyval`.
unfoldable pub init_group : Registry → Registry
init_group reg = define_methods group_methods (define_class Owner.group reg)

unfoldable pub init_status : Registry → Registry
init_status reg = define_methods status_methods (define_class Owner.status reg)

unfoldable pub init_mpi_exception : Registry → Registry
init_mpi_exception reg = define_class Owner.exception reg

unfoldable pub init_keyval : Registry → Registry
init_keyval reg = define_methods keyval_methods (define_class Owner.keyval reg)

-- The state that the start works on, and how far it gets.
pub record Started : Type 0 where
  pub outcome : Outcome (Unit {0})
  pub world : World
  pub registry : Registry
  -- SELF and WORLD, and the constants of MPI::Op
  pub comms : Option (RubyComm × RubyComm)
  pub ops : List (String × MpiOp)

-- `Init_Request`, without the start of the thread.
unfoldable pub init_request : Started → Started
unfolding init_rlist
init_request s = record s {
  world = init_rlist s.world;
  registry = define_methods request_methods (define_class Owner.request s.registry);
}

-- `Init_Op`. Where `init_predef_ops` raises, `cException` is still 0: `rb_raise` follows a null
-- pointer when it makes an object of that class.
unfoldable pub init_op : Env → ℤ → ℕ → Started → Started
unfolding init_op_table init_predef_ops
init_op env stray max_ops s =
    let reg = define_class Owner.op s.registry in
    let (r, w) = init_predef_ops env stray (record s.world { op_table = init_op_table max_ops }) in
    elim r [
      | ok ops ↦ record s { world = w; registry = define_methods op_methods reg; ops = ops }
      | raised _ ↦ record s { outcome = fault Fault.null_pointer; world = w; registry = reg }
      | fault f ↦ record s { outcome = fault f; world = w; registry = reg }
    ]

-- The last call of `Init_MPI`, where nothing has raised.
unfoldable pub init_last : Started → Started
unfolding init_mpi_exception
init_last s = elim s.outcome [
  | ok _ ↦ record s { registry = init_mpi_exception s.registry }
  | _ ↦ s
]

abbrev pub unstarted : World → Started
unstarted w = record {
  outcome = ok tt;
  world = w;
  registry = nothing_defined;
  comms = none;
  ops = [];
}

-- `Init_MPI`. The code of MPI_Initialized is not looked at; without MPI it prints and returns.
unfoldable pub init_mpi : Env → ℤ → ℕ → World → Started
unfolding init_comm init_group init_status init_request init_op init_last init_predef_comms
init_mpi env stray max_ops w =
    let r = env.reply w.log Call.initialized in
    let s = unstarted (record w { log = Call.initialized ∷ w.log }) in
    elim (is_nonzero r.out0) [
      | false ↦ s
      | true ↦
          let reg = define_methods mpi_methods (define_class Owner.mpi nothing_defined) in
          let reg' = init_status (init_group (init_comm reg)) in
          init_last (
            init_op env stray max_ops
              (init_request (record s { registry = reg'; comms = some (init_predef_comms env) })))
    ]
