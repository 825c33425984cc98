-- ===== src/Comm/Reduce.antt =====
-- mpi_comm.c: `comm_reduce`, `comm_allreduce`, `comm_scan` and `comm_reduce_scatter`. `length` and
-- `longest` are what the local variables hold that no statement sets, and `fuel` bounds the rounds of
-- the `while` loop; the result is none when it does not do.
use mpi_ruby.Base.{
  ℕ, ◌*◌, ℤ, pos, pos_part, ◌+ℤ◌, eq_int, is_positive, Bool, true, false, List, [], ◌∷◌, Option,
  none, some, length, if◌then◌else◌,
}
use mpi_ruby.Ruby.{Value, ok, check_fixnum, rb_ary_entry, int_of_bool, is_nonzero}
use mpi_ruby.Mpi.{Call, Code, IntOp, Reduction, Reply, Env}
use mpi_ruby.Exception.{mpi_exception}
use mpi_ruby.State.{M, pure, ◌>>=◌, ◌>>◌, lift, checked}
use mpi_ruby.Comm.Struct.{CommStruct}
use mpi_ruby.Comm.Args.{int_array}
use mpi_ruby.Comm.Reduction.{
  Operand, RubyOp, array_length, element_count, same_lengths, reduce_with, load_results,
  received_in,
}

-- An object, an Array, true, or nil.
pub data Reduced : Type 0 where
  one : Value → Reduced
  all : List Value → Reduced
  yes nothing : Reduced

-- The end of a function that has `recv` for the elements of its argument.
unfoldable pub load_reduced : Env → Operand → ℕ → Reply → M Reduced
load_reduced env (Operand.single _) size r = do
  obj ← lift (env.marshal_load (received_in env size r))
  pure (Reduced.one obj)
load_reduced env (Operand.array xs) size r = do
  objs ← load_results env size (received_in env (size * length xs) r) (length xs) 0
  pure (Reduced.all objs)

unfoldable pub comm_reduce :
    ℕ → Env → CommStruct → ℤ → ℤ → Operand → RubyOp → Value → M (Option Reduced)
comm_reduce fuel env mc length longest operand rop rroot = do
  lift (check_fixnum rroot)
  root ← lift (env.fix2int rroot)
  rank ← checked env (Call.comm_rank mc.comm)
  same_lengths env mc (array_length operand)
  out ←
      reduce_with fuel env rop mc (Reduction.reduce (pos (element_count operand)) root) operand
        length longest (pure tt)
  elim out [
    | none ↦ pure none
    | some (_, size, r) ↦ do
      result ← elim (eq_int rank.out0 root) [
        | true ↦ load_reduced env operand size r
        | false ↦ pure Reduced.yes
      ]
      pure (some result)
  ]

-- The end of `comm_allreduce` and `comm_scan`.
unfoldable pub load_everywhere : Env → Operand → Option (Unit {0} × ℕ × Reply) → M (Option Reduced)
load_everywhere env operand none = pure none
load_everywhere env operand (some (_, size, r)) = do
  result ← load_reduced env operand size r
  pure (some result)

unfoldable pub comm_allreduce : ℕ → Env → CommStruct → ℤ → ℤ → Operand → RubyOp → M (Option Reduced)
comm_allreduce fuel env mc length longest operand rop = do
  same_lengths env mc (array_length operand)
  out ←
      reduce_with fuel env rop mc (Reduction.allreduce (pos (element_count operand))) operand length
        longest (pure tt)
  load_everywhere env operand out

unfoldable pub comm_scan : ℕ → Env → CommStruct → ℤ → ℤ → Operand → RubyOp → M (Option Reduced)
comm_scan fuel env mc length longest operand rop = do
  same_lengths env mc (array_length operand)
  out ←
      reduce_with fuel env rop mc (Reduction.scan (pos (element_count operand))) operand length
        longest (pure tt)
  load_everywhere env operand out

unfoldable pub sum_int : List ℤ → ℤ
sum_int [] = pos 0
sum_int (n ∷ ns) = n +ℤ sum_int ns

-- `ary_ok`
unfoldable pub counts_fit : Operand → ℤ → Bool
counts_fit (Operand.array xs) count = eq_int (pos (length xs)) count
counts_fit (Operand.single _) count = eq_int count (pos 1)

-- The end of `comm_reduce_scatter`: this process has `my_size` elements of the result.
unfoldable pub load_share : Env → Operand → Option (ℤ × ℕ × Reply) → M (Option Reduced)
load_share env operand none = pure none
load_share env (Operand.array _) (some (my_size, size, r)) = do
  let n = pos_part my_size
  objs ← load_results env size (received_in env (size * n) r) n 0
  pure (some (Reduced.all objs))
load_share env (Operand.single _) (some (my_size, size, r)) = elim (is_positive my_size) [
  | true ↦ do obj ← lift (env.marshal_load (received_in env size r)); pure (some (Reduced.one obj))
  | false ↦ pure (some Reduced.nothing)
]

unfoldable pub comm_reduce_scatter :
    ℕ → Env → CommStruct → ℤ → ℤ → Operand → List Value → RubyOp → M (Option Reduced)
comm_reduce_scatter fuel env mc length' longest operand rcounts rop = do
  rank ← checked env (Call.comm_rank mc.comm)
  csize ← checked env (Call.comm_size mc.comm)
  lift (if eq_int (pos (length rcounts)) csize.out0 then ok tt else mpi_exception Code.err_arg)
  recvcounts ← int_array env rcounts
  let ary_ok = counts_fit operand (sum_int recvcounts)
  all_ok ← checked env (Call.allreduce_int IntOp.land (int_of_bool ary_ok) mc.comm)
  lift (if is_nonzero all_ok.out0 then ok tt else mpi_exception Code.err_arg)
  out ←
      reduce_with fuel env rop mc (Reduction.reduce_scatter recvcounts) operand length' longest
        (lift (env.fix2int (rb_ary_entry rcounts (pos_part rank.out0))))
  load_share env operand out
