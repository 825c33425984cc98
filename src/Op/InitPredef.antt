-- ===== src/Op/InitPredef.antt =====
-- mpi_op.c: the operations that MPI::Op defines as constants. `stray` is what `idx` of a new struct
-- holds, which no statement sets.
use mpi_ruby.Base.{ℤ, pos, String, List, [], ◌∷◌}
use mpi_ruby.Mpi.{Call, PredefFn, Env}
use mpi_ruby.State.{M, pure, ◌>>=◌, checked}
use mpi_ruby.Op.{MpiOp}

-- The names of the constants, in the order of their creation.
abbrev pub predef_names : List (String × PredefFn)
predef_names =
    ("MAX", PredefFn.max)
    ∷ ("MIN", PredefFn.min)
    ∷ ("SUM", PredefFn.sum)
    ∷ ("PROD", PredefFn.prod)
    ∷ ("LAND", PredefFn.land)
    ∷ ("BAND", PredefFn.band)
    ∷ ("LOR", PredefFn.lor)
    ∷ ("BOR", PredefFn.bor)
    ∷ ("LXOR", PredefFn.lxor)
    ∷ ("BXOR", PredefFn.bxor)
    ∷ ("MAXLOC", PredefFn.maxloc)
    ∷ ("MINLOC", PredefFn.minloc)
    ∷ []

-- Each block of `init_predef_ops`; all of them commute.
unfoldable pub define_ops : Env → ℤ → List (String × PredefFn) → M (List (String × MpiOp))
define_ops env stray [] = pure []
define_ops env stray ((name, fn) ∷ rest) = do
  r ← checked env (Call.op_create_predef fn (pos 1))
  ops ← define_ops env stray rest
  pure ((name, record { op = r.handle; idx = stray }) ∷ ops)

unfoldable pub init_predef_ops : Env → ℤ → M (List (String × MpiOp))
unfolding define_ops
init_predef_ops env stray = define_ops env stray predef_names
