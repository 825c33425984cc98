-- ===== src/Op/Tests.antt =====
-- mpi_op.c at concrete tables.
use mpi_ruby.Base.{
  replicate, true, ℕ, ◌+◌, ◌≡◌, ◌⊎◌, refl, pos, negsuc, false, List, [], ◌∷◌, some, String, length,
  get_elem?, set, take, arith,
}
use mpi_ruby.Ruby.{Value, ok, raised, mpi_error}
use mpi_ruby.Mpi.{Call, Datatype, Env}
use mpi_ruby.State.{OpSlot, World}
use mpi_ruby.Op.Callbacks.{op_fn, predef_fn}
use mpi_ruby.Op.Predefined.{predef_fn_lem}
use mpi_ruby.Op.Elementwise.{Element, op_fn_lem}
use mpi_ruby.Op.Events.{Event, run, Owns}
use mpi_ruby.Op.Live.{run-Owns}
use mpi_ruby.Samples.{env_of, fine, calm, broken, start_world, free_slot}
use mpi_ruby.Op.{MpiOp, taken_by, first_free, op_register, op_create, op_free, init_op_table}
use mpi_ruby.Op.Table.{count_assigned, AllAssigned, op_register_lem}
use mpi_ruby.Op.Create.{op_create_leaks, op_create-op_free}

-- One slot of two is taken, or both.
abbrev half_full : World
half_full = record start_world { op_table = taken_by (Value.object 5) ∷ free_slot ∷ [] }

abbrev all_full : World
all_full = record start_world {
  op_table = taken_by (Value.object 5) ∷ taken_by (Value.object 6) ∷ [];
}

init_op_table_runs :
    init_op_table 2 ≡ replicate 2 (record { proc = Value.qfalse; assigned = false; resize = pos 0 })
unfolding init_op_table
init_op_table_runs = refl

op_register_runs : (op_register (Value.object 8) half_full).0 ≡ ok (pos 1)
unfolding op_register first_free
op_register_runs = refl

op_register_lem_example :
    let t = half_full.op_table in
    let p = Value.object 8 in
    (count_assigned t ≡ length t) × (op_register p half_full ≡ (ok (negsuc 0), half_full))
    ⊎ ((i : ℕ) × (op_register p half_full ≡ (
      ok (pos i),
      record half_full {
        op_table = set t i (record { proc = p; assigned = true; resize = pos 0 });
      },
    ))
        × ((s : OpSlot) × (get_elem? t i ≡ some s) × (s.assigned ≡ false))
        × AllAssigned (take i t)
        × (count_assigned (set t i (record { proc = p; assigned = true; resize = pos 0 }))
            ≡ count_assigned t + 1))
op_register_lem_example = op_register_lem (Value.object 8) half_full

op_create_leaks_example :
    let (r, w') = op_create broken (Value.object 8) Value.qtrue half_full in
    ((m : String) × (r ≡ raised (mpi_error m)))
    × (count_assigned w'.op_table ≡ count_assigned half_full.op_table + 1)
unfolding count_assigned
op_create_leaks_example =
    op_create_leaks broken (Value.object 8) Value.qtrue half_full (omega arith) (λ h. cc)

op_create-op_free_example :
    (o : MpiOp) × (w₁ w₂ : World) × (op_create calm (Value.object 8) Value.qtrue half_full
      ≡ (ok (some o), w₁))
    × (op_free calm o w₁ ≡ (ok tt, w₂))
    × (count_assigned w₁.op_table ≡ count_assigned half_full.op_table + 1)
    × (count_assigned w₂.op_table ≡ count_assigned half_full.op_table)
    × (o.idx ≡ pos (first_free half_full.op_table))
    × ((op_register (Value.object 9) w₂).0 ≡ ok o.idx)
unfolding count_assigned
op_create-op_free_example =
    op_create-op_free calm (Value.object 8) Value.qtrue (Value.object 9) half_full (omega arith)
      refl

-- `op_1` on two elements of four bytes: the dump of the first result fits.
abbrev pair : Element
pair = record {
  given = 4 ∷ 8 ∷ 6 ∷ 0 ∷ [];
  kept = 4 ∷ 8 ∷ 3 ∷ 9 ∷ [];
  arg1 = Value.object 5;
  arg2 = Value.object 2;
  obj = Value.object 5;
  dump = 4 ∷ 8 ∷ 6 ∷ [];
}

abbrev byte_type : Datatype
byte_type = Datatype.derived 3

-- MPI_Type_size answers 4.
abbrev sized : Env
sized = env_of (λ _ _. record fine { out0 = pos 4 })

op_fn_lem_example :
    op_fn sized 0 byte_type
      (4 ∷ 8 ∷ 6 ∷ 0 ∷ 4 ∷ 8 ∷ 6 ∷ 0 ∷ [])
      2
      (4 ∷ 8 ∷ 3 ∷ 9 ∷ 4 ∷ 8 ∷ 3 ∷ 9 ∷ [])
      half_full
    ≡ (
      ok (4 ∷ 8 ∷ 6 ∷ 0 ∷ 4 ∷ 8 ∷ 6 ∷ 0 ∷ []),
      record half_full { log = Call.type_size byte_type ∷ [] },
    )
op_fn_lem_example =
    op_fn_lem sized 0 4 byte_type (pair ∷ pair ∷ []) (taken_by (Value.object 5)) half_full refl refl
      refl ((refl, refl, refl, refl, refl, refl), ((refl, refl, refl, refl, refl, refl), tt))

-- An operation that keeps the first object, with 2 in its variable `length`.
predef_fn_lem_example :
    predef_fn sized
      (pos 2)
      (λ a _. ok a)
      byte_type
      (4 ∷ 8 ∷ 6 ∷ 0 ∷ [])
      1
      (4 ∷ 8 ∷ 3 ∷ 9 ∷ [])
      half_full
    ≡ (ok (4 ∷ 8 ∷ 6 ∷ 9 ∷ []), record half_full { log = Call.type_size byte_type ∷ [] })
predef_fn_lem_example =
    predef_fn_lem sized (λ a _. ok a) 2 4 byte_type (pair ∷ []) (taken_by (Value.object 5))
      half_full refl refl refl ((refl, refl, refl, refl, refl, (_, refl, refl), omega arith), tt)

-- Two operations, of which the first is finalised; its slot goes to a third.
abbrev events : List Event
events =
    Event.create (Value.object 5) Value.qtrue
    ∷ Event.create (Value.object 6) Value.qtrue
    ∷ Event.finalise 1
    ∷ Event.create (Value.object 7) Value.qtrue
    ∷ []

run-Owns_example : let (live, w') = run calm events ([], start_world) in Owns live w'.op_table
run-Owns_example = run-Owns calm events start_world
