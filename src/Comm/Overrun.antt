-- ===== src/Comm/Overrun.antt =====
-- mpi_comm.c: the `while` loop of a reduction whose operation asks for more room than there is.
use mpi_ruby.Ruby.{Outcome, ok, raised, fault}
use mpi_ruby.Mpi.{Reduction}
use mpi_ruby.State.{World, M}
use mpi_ruby.State.Keeps.{Gives}

-- No state satisfies anything of what is yielded: the block does not return.
abbrev NoReturn : {A : Type 0} → M A → Type 0
NoReturn m = Gives (λ _. Unit) (λ _. ⊥) m

-- What a block does with the outcome of its first statement.
abbrev passed_on : {A B : Type 0} → (A → M B) → Outcome A → World → Outcome B × World
passed_on f r w = elim r [ ok a ↦ f a w | raised e ↦ (raised e, w) | fault e ↦ (fault e, w) ]
