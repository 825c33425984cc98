-- ===== src/Op/Events.antt =====
-- mpi_op.c: any sequence of `MPI::Op.create` and of the finalisers of operations, and which slot of the
-- table belongs to which operation.
use mpi_ruby.Base.{
  ℕ, zero, suc, ◌≡◌, ◌≢◌, ◌∙◌, pos, true, false, List, [], ◌∷◌, Option, none, some, get_elem?, set,
  arith, get_elem?-set_ne,
}
use mpi_ruby.Ruby.{Value, Outcome, ok, raised, fault}
use mpi_ruby.Mpi.{Env}
use mpi_ruby.State.{OpSlot, World}
use mpi_ruby.Op.{MpiOp, op_create, op_free}

-- A Ruby program creates an operation, or the collector finalises the one at a place of the list
-- of those that live.
pub data Event : Type 0 where
  create : Value → Value → Event
  finalise : ℕ → Event

abbrev pub remove : ℕ → List MpiOp → List MpiOp
remove k [] = []
remove zero (o ∷ live) = live
remove (suc k) (o ∷ live) = o ∷ remove k live

-- The list after `op_create`: longer by what it returned.
abbrev pub with_created : Outcome (Option MpiOp) → List MpiOp → List MpiOp
with_created (ok (some o)) live = o ∷ live
with_created (ok none) live = live
with_created (raised _) live = live
with_created (fault _) live = live

unfoldable pub step : Env → Event → List MpiOp × World → List MpiOp × World
step env (Event.create proc rcommute) (live, w) =
    let (r, w') = op_create env proc rcommute w in (with_created r live, w')
step env (Event.finalise k) (live, w) = elim (get_elem? live k) [
  | none ↦ (live, w)
  | some o ↦ (remove k live, (op_free env o w).1)
]

unfoldable pub run : Env → List Event → List MpiOp × World → List MpiOp × World
run env [] c = c
run env (e ∷ es) c = run env es (step env e c)

abbrev pub NotAmong : ℕ → List MpiOp → Type 0
NotAmong i [] = Unit
NotAmong i (o ∷ live) = (o.idx ≢ pos i) × NotAmong i live

-- Every operation of the list has an assigned slot of the table, and no two have the same.
abbrev pub Owns : List MpiOp → List OpSlot → Type 0
Owns [] t = Unit
Owns (o ∷ live) t =
    ((i : ℕ) × (o.idx ≡ pos i)
      × ((s : OpSlot) × (get_elem? t i ≡ some s) × (s.assigned ≡ true))
      × NotAmong i live)
    × Owns live t

-- A write to a slot that no operation of the list owns.
pub Owns-set :
    (live : List MpiOp) (t : List OpSlot) (j : ℕ) (s : OpSlot)
    → Owns live t
    → NotAmong j live
    → Owns live (set t j s)
Owns-set [] t j s h n = tt
Owns-set (o ∷ live) t j s ((i, e, (s', g, a), d), h) (ne, n) =
    let ji : j ≢ i = λ ji. ne (ground (arith)) in
    ((i, e, (s', get_elem?-set_ne t j i s ji ∙ g, a), d), Owns-set live t j s h n)

-- A slot that is not assigned is nobody's.
pub NotAmong-unassigned :
    (live : List MpiOp) (t : List OpSlot) (j : ℕ) (s : OpSlot)
    → Owns live t
    → get_elem? t j ≡ some s
    → s.assigned ≡ false
    → NotAmong j live
NotAmong-unassigned [] t j s h g f = tt
NotAmong-unassigned (o ∷ live) t j s ((i, e, (s', g', a), d), h) g f =
    (λ ej. ground arith, NotAmong-unassigned live t j s h g f)
