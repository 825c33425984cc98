-- ===== src/Comm/Compare.antt =====
-- mpi_comm.c: the comparisons of communicators.
use mpi_ruby.Base.{
  ℤ, pos, ◌≡◌, ◌≢◌, arith, eq_int, eq_int_refl, eq_of_eq_int, false, Bool-cases, inl, inr,
}
use mpi_ruby.Ruby.{ok}
use mpi_ruby.Mpi.{Call, Code, Env}
use mpi_ruby.Exception.Laws.{mpi_exception_success}
use mpi_ruby.State.{World}
use mpi_ruby.Comm.Struct.{CommStruct}
use mpi_ruby.Comm.Environment.{compare_self, comm_equal, comm_congruent_p, comm_similar_p}

eq_int_ne : (a b : ℤ) → a ≢ b → eq_int a b ≡ false
eq_int_ne a b h = elim (Bool-cases (eq_int a b)) [
  | inl e ↦ absurd (h (eq_of_eq_int a b e))
  | inr e ↦ e
]

-- If MPI_Comm_compare succeeds and finds a handle identical to itself, and MPI's three answers are
-- distinct numbers, then `==` gives the VALUE of the word 1, `congruent?` and `similar?` that of the
-- word 0, whatever the other communicator is.
pub comparisons_ignore_other :
    (env : Env) (self other : CommStruct) (w : World)
    → (env.reply w.log (Call.comm_compare self.comm self.comm)).rv ≡ Code.success
    → (env.reply w.log (Call.comm_compare self.comm self.comm)).out0 ≡ env.mpi_ident
    → env.mpi_ident ≢ env.mpi_congruent
    → env.mpi_ident ≢ env.mpi_similar
    → ((comm_equal env self other w).0 ≡ ok (env.value_of_word (pos 1)))
      × ((comm_congruent_p env self other w).0 ≡ ok (env.value_of_word (pos 0)))
      × ((comm_similar_p env self other w).0 ≡ ok (env.value_of_word (pos 0)))
unfolding compare_self comm_equal comm_congruent_p comm_similar_p
comparisons_ignore_other env self other w good same nc ns = (
  ground (arith, good, same, mpi_exception_success, eq_int_refl env.mpi_ident),
  ground (arith, good, same, mpi_exception_success, eq_int_ne _ _ nc),
  ground (arith, good, same, mpi_exception_success, eq_int_ne _ _ ns),
)
