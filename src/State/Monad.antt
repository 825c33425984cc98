-- ===== src/State/Monad.antt =====
-- A C function with the state it leaves: it returns, raises, or faults.
use mpi_ruby.Base.{ℕ, ◌∷◌, some, get_elem?, set}
use mpi_ruby.Ruby.{Outcome, ok, raised, fault, Fault}
use mpi_ruby.Mpi.{Call, Reply, Env}
use mpi_ruby.Exception.{mpi_exception}
use mpi_ruby.State.Cells.{World, Request}

abbrev pub M : Type 0 → Type 0
M A = World → Outcome A × World

abbrev pub pure : {A : Type 0} → A → M A
pure a w = (ok a, w)

infixl 5 ◌>>=◌ ◌>>◌
abbrev pub ◌>>=◌ : {A B : Type 0} → M A → (A → M B) → M B
◌>>=◌ m f w =
    let (r, w') = m w in
    elim r [ ok a ↦ f a w' | raised e ↦ (raised e, w') | fault e ↦ (fault e, w') ]

abbrev pub ◌>>◌ : {A B : Type 0} → M A → M B → M B
m >> k = m >>= λ _. k

abbrev pub lift : {A : Type 0} → Outcome A → M A
lift r w = (r, w)

-- A call of an MPI function.
abbrev pub call : Env → Call → M Reply
call env c w = (ok (env.reply w.log c), record w { log = c ∷ w.log })

-- `rv = MPI_...; mpi_exception(rv);`
abbrev pub checked : Env → Call → M Reply
checked env c = do r ← call env c; lift (mpi_exception r.rv); pure r

-- `Data_Get_Struct(self, struct mpi_request, mr)`, and a write of the struct.
abbrev pub load : ℕ → M Request
load a w = elim (get_elem? w.heap a) [ some (some mr) ↦ (ok mr, w) | _ ↦ (fault Fault.dangling, w) ]

abbrev pub store : ℕ → Request → M (Unit {0})
store a mr w = (ok tt, record w { heap = set w.heap a (some mr) })
