-- ===== src/Comm/Reduction.antt =====
-- mpi_comm.c: the parts that `comm_reduce`, `comm_allreduce`, `comm_scan` and `comm_reduce_scatter`
-- have in common, statement by statement. The object to reduce is one Ruby object, or an Array, whose
-- elements are reduced place by place. The send buffer is filled again before each round, always at
-- its first size.
use mpi_ruby.Base.{
  ◌+◌, ltb, ℕ, zero, suc, ◌*◌, ℤ, pos, negsuc, succ, pos_part, lt_int, is_positive, eq_int, true,
  false, List, [], ◌∷◌, Option, none, some, length, cells, if◌then◌else◌,
}
use mpi_ruby.Ruby.{Value, Bytes, Outcome, ok, fault, Fault}
use mpi_ruby.Mpi.{Call, Code, Datatype, IntOp, Reduction, Reply, Application, Env}
use mpi_ruby.Exception.{mpi_exception}
use mpi_ruby.State.{M, pure, ◌>>=◌, ◌>>◌, lift, call, checked}
use mpi_ruby.Op.{MpiOp, op_get_resize, op_clear_resize}
use mpi_ruby.Op.Vector.{chunk, memcpy}
use mpi_ruby.Comm.Struct.{CommStruct}
use mpi_ruby.Comm.PointToPoint.{marshalled}

pub data Operand : Type 0 where
  single : Value → Operand
  array : List Value → Operand

-- The operation that is passed in, with the C function that MPI_Op_create was given for it.
pub record RubyOp : Type 0 where
  pub struct : MpiOp
  pub fn : Datatype → Bytes → ℕ → Bytes → M Bytes

-- `arylen`
unfoldable pub array_length : Operand → ℤ
array_length (Operand.single _) = negsuc 0
array_length (Operand.array xs) = pos (length xs)

-- How many elements the buffers have.
unfoldable pub element_count : Operand → ℕ
element_count (Operand.single _) = 1
element_count (Operand.array xs) = length xs

-- The processes must agree on the length of the Array.
unfoldable pub same_lengths : Env → CommStruct → ℤ → M (Unit {0})
same_lengths env mc arylen = do
  arymax ← checked env (Call.allreduce_int IntOp.max arylen mc.comm)
  arymin ← checked env (Call.allreduce_int IntOp.min arylen mc.comm)
  lift (if eq_int arymin.out0 arymax.out0 then ok tt else mpi_exception Code.err_arg)

-- The loop that marshals each element; `length` does not change in it.
unfoldable pub measure : Env → List Value → ℤ → ℤ → M ℤ
measure env [] length longest = pure longest
measure env (x ∷ xs) length longest = do
  marshalled env x
  measure env xs length (if lt_int longest length then length else longest)

-- `length` before the global check, and `tmp`. The arguments are what `length` and `longest` hold,
-- which no statement sets.
unfoldable pub local_length : Env → Operand → ℤ → ℤ → M (ℤ × Bytes)
local_length env (Operand.array xs) length longest = do
  n ← measure env xs length longest
  pure (n, [])
local_length env (Operand.single obj) length longest = do
  tmp ← marshalled env obj
  pure (length, tmp)

-- The copies of the elements into the send buffer, from the element `i` on.
unfoldable pub fill_from : Env → ℕ → ℤ → List Value → ℕ → Bytes → M Bytes
fill_from env size length [] i send = pure send
fill_from env size length (x ∷ xs) i send = do
  tmp ← marshalled env x
  send' ← lift (memcpy send (i * size) tmp (succ length))
  fill_from env size length xs (suc i) send'

unfoldable pub fill : Env → ℕ → ℤ → Operand → Bytes → Bytes → M Bytes
fill env size length (Operand.array xs) tmp send = fill_from env size length xs 0 send
fill env size length (Operand.single _) tmp send = lift (memcpy send 0 tmp (succ length))

-- The same inside the loop, where a single object is marshalled again.
unfoldable pub refill : Env → ℕ → ℤ → Operand → Bytes → M Bytes
refill env size length (Operand.array xs) send = fill_from env size length xs 0 send
refill env size length (Operand.single obj) send = do
  tmp ← marshalled env obj
  lift (memcpy send 0 tmp (succ length))

-- What MPI does with the function of the operation inside a reduction: the vectors that it leaves.
unfoldable pub apply_all :
    (Datatype → Bytes → ℕ → Bytes → M Bytes) → Datatype → List Application → M (List Bytes)
apply_all fn dtype [] = pure []
apply_all fn dtype (a ∷ rest) = do
  out ← fn dtype a.invec a.len a.inoutvec
  outs ← apply_all fn dtype rest
  pure (out ∷ outs)

-- MPI_Reduce and the like, and the check of its code. The function may raise out of it.
unfoldable pub reduction : Env → RubyOp → CommStruct → Reduction → Bytes → ℕ → M Reply
reduction env rop mc kind send dtype w =
    let c = Call.reduction kind send dtype rop.struct.op mc.comm in
    (do
      r ← call env c
      outs ← apply_all rop.fn (Datatype.derived dtype) (env.applied w.log c)
      lift (mpi_exception r.rv)
      pure (record r { bytes = env.delivered w.log c outs }))
      w

-- The number of elements in the send buffer.
abbrev pub elements : Reduction → ℕ
elements (Reduction.reduce count root) = pos_part count
elements (Reduction.allreduce count) = pos_part count
elements (Reduction.scan count) = pos_part count
elements (Reduction.reduce_scatter counts) = total counts
  where
    total : List ℤ → ℕ
    total [] = 0
    total (n ∷ ns) = pos_part n + total ns

-- MPI reads that many elements of the new type, and the buffer has the size that it was made with.
abbrev pub within_buffer : Reduction → ℤ → Bytes → Outcome (Unit {0})
within_buffer kind resize send = elim (ltb (length send) (elements kind * pos_part resize)) [
  | true ↦ fault Fault.out_of_bounds
  | false ↦ ok tt
]

-- One round of the `while` loop: the type is made anew, and the reduction done again.
unfoldable pub resize_round :
    Env
    → RubyOp
    → CommStruct
    → Reduction
    → (Bytes → M Bytes)
    → ℤ
    → ℕ
    → Bytes
    → M (ℕ × Bytes × Reply)
resize_round env rop mc kind refill resize dtype send = do
  op_clear_resize rop.struct
  checked env (Call.type_free dtype)
  t ← checked env (Call.type_contiguous resize)
  checked env (Call.type_commit t.handle)
  send' ← refill send
  lift (within_buffer kind resize send)
  r ← reduction env rop mc kind send' t.handle
  pure (t.handle, send', r)

-- `while (resize > 0)`, from `resize` and the type as they are; the result is the last type with what
-- MPI answered last, or none when the fuel does not do.
unfoldable pub resize_loop :
    ℕ
    → Env
    → RubyOp
    → CommStruct
    → Reduction
    → (Bytes → M Bytes)
    → ℤ
    → ℕ
    → Bytes
    → Reply
    → M (Option (ℕ × Reply))
resize_loop zero env rop mc kind refill resize dtype send r =
    pure (if is_positive resize then none else some (dtype, r))
resize_loop (suc fuel) env rop mc kind refill resize dtype send r = elim (is_positive resize) [
  | false ↦ pure (some (dtype, r))
  | true ↦ do
    next ← resize_round env rop mc kind refill resize dtype send
    resize' ← op_get_resize rop.struct
    resize_loop fuel env rop mc kind refill resize' next.0 next.1 next.2
]

-- From the measuring of the object to the last MPI_Type_free. `prepare` is what the function does
-- before it fills the send buffer. The result is `longest + 1`, with the contents of `recv`.
unfoldable pub reduce_with :
    {A : Type 0}
    → ℕ
    → Env
    → RubyOp
    → CommStruct
    → Reduction
    → Operand
    → ℤ
    → ℤ
    → M A
    → M (Option (A × ℕ × Reply))
reduce_with fuel env rop mc kind operand length longest prepare = do
  own ← local_length env operand length longest
  global ← checked env (Call.allreduce_int IntOp.max own.0 mc.comm)
  t ← checked env (Call.type_contiguous (succ global.out0))
  checked env (Call.type_commit t.handle)
  a ← prepare
  let size = pos_part (succ global.out0)
  send ← fill env size own.0 operand own.1 (cells (size * element_count operand) env.junk_char [])
  r ← reduction env rop mc kind send t.handle
  resize ← op_get_resize rop.struct
  out ← resize_loop fuel env rop mc kind (refill env size own.0 operand) resize t.handle send r
  elim out [
    | none ↦ pure none
    | some (dtype, last) ↦ do checked env (Call.type_free dtype); pure (some (a, size, last))
  ]

-- `Marshal.load` of `n` elements of `recv`, from the element `i` on.
unfoldable pub load_results : Env → ℕ → Bytes → ℕ → ℕ → M (List Value)
load_results env size recv zero i = pure []
load_results env size recv (suc n) i = do
  str ← lift (chunk (i * size) size recv)
  obj ← lift (env.marshal_load str)
  objs ← load_results env size recv n (suc i)
  pure (obj ∷ objs)

-- The memory that `ALLOCA_N(char, size * n)` reserved, after MPI wrote to it.
abbrev pub received_in : Env → ℕ → Reply → Bytes
received_in env n r = cells n env.junk_char r.bytes
