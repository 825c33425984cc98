-- ===== src/Op.antt =====
-- src/mpi_op.c: the table of user operations (its type is in src/ops.rb), `MPI::Op.create`, and
-- the functions that the reductions call on it. `MAX_OPS` is the length of the table.
pub mod Table
pub mod Create
pub mod Vector
pub mod Callbacks
pub mod Elementwise
pub mod InitPredef
pub mod Predefined
pub mod Asks
pub mod Events
pub mod Live
mod Tests
use mpi_ruby.Base.{
  ℕ, suc, ℤ, pos, negsuc, true, false, List, [], ◌∷◌, Option, none, some, length, get_elem?, set,
  replicate, if◌then◌else◌, ◌==◌,
}
use mpi_ruby.Ruby.{Value, truthy, int_of_bool, ok, fault, Fault}
use mpi_ruby.Mpi.{Call, Code, Env}
use mpi_ruby.Exception.{mpi_exception}
use mpi_ruby.State.{◌>>=◌, ◌>>◌, OpSlot, World, M, pure, lift, call, checked}

-- `struct mpi_op`: `*op`, and the index into the table.
pub record MpiOp : Type 0 where
  pub op : ℕ
  pub idx : ℤ

-- The `i` at which the loop of `op_register` stops.
unfoldable pub first_free : List OpSlot → ℕ
first_free [] = 0
first_free (s ∷ rest) = if s.assigned then suc (first_free rest) else 0

abbrev pub taken_by : Value → OpSlot
taken_by proc = record { proc = proc; assigned = true; resize = pos 0 }

unfoldable pub op_register : Value → M ℤ
op_register proc w =
    let i = first_free w.op_table in
    if i == length w.op_table
    then (ok (negsuc 0), w)
    else (ok (pos i), record w { op_table = set w.op_table i (taken_by proc) })

-- The slot of a struct: an index outside the table is undefined behaviour.
abbrev pub slot : ℤ → World → Option OpSlot
slot (pos i) w = get_elem? w.op_table i
slot (negsuc _) w = none

abbrev pub update_slot : ℤ → (OpSlot → OpSlot) → M (Unit {0})
update_slot (negsuc _) f w = (fault Fault.out_of_bounds, w)
update_slot (pos i) f w = elim (get_elem? w.op_table i) [
  | none ↦ (fault Fault.out_of_bounds, w)
  | some s ↦ (ok tt, record w { op_table = set w.op_table i (f s) })
]

-- The finaliser of an `MPI::Op`. What MPI_Op_free returns is dropped.
unfoldable pub op_free : Env → MpiOp → M (Unit {0})
op_free env o = do call env (Call.op_free o.op); release o.idx
  where
    release : ℤ → M (Unit {0})
    release (pos i) = update_slot (pos i) (λ s. record s { assigned = false })
    release (negsuc _) = pure tt

unfoldable pub op_get_resize : MpiOp → M ℤ
op_get_resize o w = elim (slot o.idx w) [
  | none ↦ (fault Fault.out_of_bounds, w)
  | some s ↦ (ok s.resize, w)
]

unfoldable pub op_clear_resize : MpiOp → M (Unit {0})
op_clear_resize o = update_slot o.idx (λ s. record s { resize = pos 0 })

-- The part of `op_create` after `op_register`; `none` is the `return Qnil` behind the exception.
unfoldable pub finish_create : Env → Value → ℤ → M (Option MpiOp)
finish_create env rcommute (negsuc _) = do lift (mpi_exception Code.err_intern); pure none
finish_create env rcommute (pos i) = do
  r ← checked env (Call.op_create (pos i) (int_of_bool (truthy rcommute)))
  pure (some (record { op = r.handle; idx = pos i }))

-- `MPI::Op.create(proc, commute)`
unfoldable pub op_create : Env → Value → Value → M (Option MpiOp)
unfolding finish_create
op_create env proc rcommute = do idx ← op_register proc; finish_create env rcommute idx

-- The loop at the head of `Init_Op`: `proc` keeps what the static array holds, 0, which is Qfalse.
unfoldable pub init_op_table : ℕ → List OpSlot
init_op_table max_ops =
    replicate max_ops (record { proc = Value.qfalse; assigned = false; resize = pos 0 })
