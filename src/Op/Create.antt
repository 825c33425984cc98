-- ===== src/Op/Create.antt =====
-- mpi_op.c: `MPI::Op.create` and the finaliser, through the whole life of a slot.
use mpi_ruby.Base.{
  String, ◌+◌, ◌<◌, ◌≡◌, ◌≢◌, refl, pos, negsuc, ◌∷◌, some, length, set, arith, get_elem?-set_self,
  set-set, length-set,
}
use mpi_ruby.Ruby.{Value, ok, raised, mpi_error, truthy, int_of_bool}
use mpi_ruby.Mpi.{Call, Code, Env}
use mpi_ruby.Exception.Laws.{mpi_exception_success, mpi_exception_intern, mpi_exception_raises}
use mpi_ruby.State.{World}
use mpi_ruby.Op.{MpiOp, first_free, taken_by, op_register, op_create, op_free, finish_create}
use mpi_ruby.Op.Table.{
  count_assigned, first_free-eq_length, first_free-le, count_assigned-take, freed_by,
  count_assigned-free, first_free-free,
}

op_register-full :
    (proc : Value) (w : World)
    → count_assigned w.op_table ≡ length w.op_table
    → op_register proc w ≡ (ok (negsuc 0), w)
unfolding op_register
op_register-full proc w h = ground (arith, first_free-eq_length w.op_table)

op_register-free :
    (proc : Value) (w : World)
    → count_assigned w.op_table < length w.op_table
    → (first_free w.op_table < length w.op_table)
      × (op_register proc w ≡ (
        ok (pos (first_free w.op_table)),
        record w { op_table = set w.op_table (first_free w.op_table) (taken_by proc) },
      ))
unfolding op_register
op_register-free proc w h =
    ground (arith, first_free-eq_length w.op_table, first_free-le w.op_table)

-- On a full table `op_create` raises MPI::Exception "Internal MPI error", calls no MPI function and
-- changes nothing.
pub op_create_full :
    (env : Env) (proc rcommute : Value) (w : World)
    → count_assigned w.op_table ≡ length w.op_table
    → op_create env proc rcommute w ≡ (raised (mpi_error "Internal MPI error"), w)
unfolding op_create finish_create
op_create_full env proc rcommute w h =
    ground (arith, op_register-full proc w h, mpi_exception_intern)

-- The state with which `op_create` calls MPI_Op_create, and that call.
abbrev pub registered : Value → World → World
registered proc w = record w { op_table = set w.op_table (first_free w.op_table) (taken_by proc) }

abbrev pub creation : Value → World → Call
creation rcommute w = Call.op_create (pos (first_free w.op_table)) (int_of_bool (truthy rcommute))

-- If MPI_Op_create fails, `op_create` raises, and the slot that it took stays assigned although no
-- `MPI::Op` exists that could free it: each failure costs one of the MAX_OPS slots for good.
pub op_create_leaks :
    (env : Env) (proc rcommute : Value) (w : World)
    → count_assigned w.op_table < length w.op_table
    → (env.reply w.log (creation rcommute w)).rv ≢ Code.success
    → let (r, w') = op_create env proc rcommute w in
      ((m : String) × (r ≡ raised (mpi_error m)))
      × (count_assigned w'.op_table ≡ count_assigned w.op_table + 1)
unfolding op_create finish_create
op_create_leaks env proc rcommute w h bad =
    let (lt, e) = op_register-free proc w h in
    let (m, f) = mpi_exception_raises _ bad in
    ((m, ground (arith, e, f)), ground (arith, e, f, count_assigned-take w.op_table proc lt))

-- While a slot is free and MPI_Op_create succeeds, `op_create` returns an operation of the first
-- free index. Finalising it gives the slot back: as many slots are assigned as before, and the
-- next `op_register` returns the same index.
pub op_create-op_free :
    (env : Env) (proc rcommute proc' : Value) (w : World)
    → count_assigned w.op_table < length w.op_table
    → (env.reply w.log (creation rcommute w)).rv ≡ Code.success
    → (o : MpiOp) × (w₁ w₂ : World) × (op_create env proc rcommute w ≡ (ok (some o), w₁))
      × (op_free env o w₁ ≡ (ok tt, w₂))
      × (count_assigned w₁.op_table ≡ count_assigned w.op_table + 1)
      × (count_assigned w₂.op_table ≡ count_assigned w.op_table)
      × (o.idx ≡ pos (first_free w.op_table))
      × ((op_register proc' w₂).0 ≡ ok o.idx)
unfolding op_create finish_create op_free
op_create-op_free env proc rcommute proc' w h good =
    let (lt, e) = op_register-free proc w h in
    let s : MpiOp = record {
      op = (env.reply w.log (creation rcommute w)).handle;
      idx = pos (first_free w.op_table);
    } in
    let w₁ : World = record (registered proc w) { log = creation rcommute w ∷ w.log } in
    let w₂ : World = record w {
      log = Call.op_free s.op ∷ w₁.log;
      op_table = set w.op_table (first_free w.op_table) (freed_by proc);
    } in
    (
      s,
      w₁,
      w₂,
      ground (arith, e, mpi_exception_success),
      ground (
        arith,
        get_elem?-set_self w.op_table (first_free w.op_table) (taken_by proc) lt,
        set-set w.op_table (first_free w.op_table) (taken_by proc) (freed_by proc),
      ),
      count_assigned-take w.op_table proc lt,
      count_assigned-free w.op_table proc lt,
      refl,
      ground (
        arith,
        op_register-free proc' w₂,
        first_free-free w.op_table proc lt,
        count_assigned-free w.op_table proc lt,
        length-set w.op_table (first_free w.op_table) (freed_by proc),
      ),
    )
