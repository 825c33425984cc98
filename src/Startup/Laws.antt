-- ===== src/Startup/Laws.antt =====
-- mpi.c: the state that `Init_MPI` leaves.
use mpi_ruby.Base.{
  replicate, false, ℕ, ◌≡◌, refl, ap, sym, subst, ◌∙◌, ℤ, pos, true, String, List, [], ◌∷◌, some,
  arith,
}
use mpi_ruby.Ruby.{Value, Fault, Outcome, ok, raised, fault, is_nonzero}
use mpi_ruby.Mpi.{Call, PredefFn, Env, Reply}
use mpi_ruby.State.{Entry, World, M, pure, ◌>>=◌, checked}
use mpi_ruby.State.Keeps.{Keeps, IgnoresLog, Keeps-then, Keeps-checked}
use mpi_ruby.Op.{MpiOp, init_op_table}
use mpi_ruby.Op.InitPredef.{define_ops, init_predef_ops, predef_names}
use mpi_ruby.Request.Watch.{init_rlist}
use mpi_ruby.Comm.{init_predef_comms}
use mpi_ruby.Session.Step.{Step, Reached}
use mpi_ruby.Startup.Methods.{Owner}
use mpi_ruby.Startup.Tables.{op_methods, mpi_methods}
use mpi_ruby.Startup.Init.{
  Registry, Started, nothing_defined, define_class, init_comm, init_group, init_status,
  init_request, init_op, init_last, init_mpi_exception, init_mpi, define_methods, unstarted,
}

Keeps-define_ops :
    (P : World → Type 0) (env : Env) (stray : ℤ) (fns : List (String × PredefFn))
    → IgnoresLog P
    → Keeps P (define_ops env stray fns)
unfolding define_ops
Keeps-define_ops P env stray [] free = λ w p. p
Keeps-define_ops P env stray ((name, fn) ∷ rest) free =
    let c = Call.op_create_predef fn (pos 1) in
    let named : Reply → List (String × MpiOp) → M (List (String × MpiOp)) =
      λ r ops. pure ((name, record { op = r.handle; idx = stray }) ∷ ops) in
    Keeps-then P (checked env c) (λ r. define_ops env stray rest >>= named r)
      (Keeps-checked P env c free)
      λ r.
        Keeps-then P (define_ops env stray rest) (named r) (Keeps-define_ops P env stray rest free)
          (λ _ w p. p)

-- Only calls of MPI have been added.
abbrev SameStores : World → World → Type 0
SameStores w w' =
    (w'.heap ≡ w.heap)
    × (w'.rlist ≡ w.rlist)
    × (w'.capacity ≡ w.capacity)
    × (w'.op_table ≡ w.op_table)

-- The state that `Init_Op` starts with.
abbrev pub before_ops : Env → ℕ → World → World
before_ops env max_ops w = record (init_rlist (record w { log = Call.initialized ∷ w.log })) {
  op_table = init_op_table max_ops;
}

-- The state after the predefined operations, and after the last call.
abbrev pub after_ops : Started → Registry → Outcome (List (String × MpiOp)) → World → Started
after_ops s reg r w = elim r [
  | ok ops ↦ record s { world = w; registry = define_methods op_methods reg; ops = ops }
  | raised e ↦ record s { outcome = fault Fault.null_pointer; world = w; registry = reg }
  | fault f ↦ record s { outcome = fault f; world = w; registry = reg }
]

after_ops-world :
    (s : Started) (reg : Registry) (r : Outcome (List (String × MpiOp))) (w : World)
    → (after_ops s reg r w).world ≡ w
after_ops-world s reg (ok ops) w = refl
after_ops-world s reg (raised e) w = refl
after_ops-world s reg (fault f) w = refl

init_op-world :
    (env : Env) (stray : ℤ) (max_ops : ℕ) (s : Started)
    → (init_op env stray max_ops s).world
      ≡ (init_predef_ops env stray (record s.world { op_table = init_op_table max_ops })).1
unfolding init_op
init_op-world env stray max_ops s =
    let (r, w) = init_predef_ops env stray (record s.world { op_table = init_op_table max_ops }) in
    after_ops-world s (define_class Owner.op s.registry) r w

abbrev pub after_all : Started → Outcome (Unit {0}) → Started
after_all s o = elim o [ ok _ ↦ record s { registry = init_mpi_exception s.registry } | _ ↦ s ]

init_last-world : (s : Started) → (init_last s).world ≡ s.world
unfolding init_last
init_last-world s = go s.outcome
  where
    go : (o : Outcome (Unit {0})) → (after_all s o).world ≡ s.world
    go (ok _) = refl
    go (raised e) = refl
    go (fault f) = refl

-- What `Init_MPI` has before `Init_Op`.
abbrev pub prepared : Env → World → Started
prepared env w = init_request (record (unstarted (record w { log = Call.initialized ∷ w.log })) {
  registry = init_status (
      init_group (init_comm (define_methods mpi_methods (define_class Owner.mpi nothing_defined))));
  comms = some (init_predef_comms env);
})

pub init_mpi-prepared :
    (env : Env) (stray : ℤ) (max_ops : ℕ) (w : World)
    → is_nonzero (env.reply w.log Call.initialized).out0 ≡ true
    → init_mpi env stray max_ops w ≡ init_last (init_op env stray max_ops (prepared env w))
unfolding init_mpi
init_mpi-prepared env stray max_ops w h = ground (arith, h)

init_mpi-world :
    (env : Env) (stray : ℤ) (max_ops : ℕ) (w : World)
    → is_nonzero (env.reply w.log Call.initialized).out0 ≡ true
    → (init_mpi env stray max_ops w).world
      ≡ (init_predef_ops env stray (before_ops env max_ops w)).1
unfolding init_request
init_mpi-world env stray max_ops w h =
    ap (λ s. s.world) (init_mpi-prepared env stray max_ops w h)
    ∙ init_last-world (init_op env stray max_ops (prepared env w))
    ∙ init_op-world env stray max_ops (prepared env w)

-- Where MPI is initialised, whatever it answers to MPI_Op_create: `Init_MPI` leaves the list of
-- pending receives with 16 cells, all of them NULL, and `capacity` 16; every slot of the table of
-- operations unassigned, with no resize asked for; and no request made. It is a state from which the
-- sequences of methods of Session start.
pub init_mpi-Reached :
    (env : Env) (stray : ℤ) (max_ops : ℕ) (w : World)
    → is_nonzero (env.reply w.log Call.initialized).out0 ≡ true
    → let w' = (init_mpi env stray max_ops w).world in
      (w'.rlist ≡ replicate 16 Entry.empty)
      × (w'.capacity ≡ 16)
      × (w'.op_table
          ≡ replicate max_ops (record { proc = Value.qfalse; assigned = false; resize = pos 0 }))
      × (w'.heap ≡ w.heap)
      × Reached env w w'
unfolding init_rlist init_predef_ops init_op_table
init_mpi-Reached env stray max_ops w h =
    let w₀ = before_ops env max_ops w in
    let same = init_mpi-world env stray max_ops w h in
    let (heap, rlist, capacity, table) =
      Keeps-define_ops (SameStores w₀) env stray predef_names (λ c x p. p) w₀
        (refl, refl, refl, refl) in
    subst
      (λ x.
        (x.rlist ≡ replicate 16 Entry.empty)
        × (x.capacity ≡ 16)
        × (x.op_table
            ≡ replicate max_ops (record { proc = Value.qfalse; assigned = false; resize = pos 0 }))
        × (x.heap ≡ w.heap)
        × Reached env w x)
      (sym same)
      (
        rlist,
        capacity,
        table,
        heap,
        Reached.later Reached.begun
            (Step.elsewhere (init_rlist w) (init_predef_ops env stray w₀).1 heap rlist capacity),
      )
