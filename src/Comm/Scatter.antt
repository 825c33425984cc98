-- ===== src/Comm/Scatter.antt =====
-- mpi_comm.c: `comm_scatter` and `comm_alltoall`. `lengths` has what the fields `datav[i].length`
-- hold, which no statement sets.
use mpi_ruby.Base.{
  ℕ, suc, ◌*◌, ℤ, pos, pos_part, succ, lt_int, eq_int, Bool, true, false, List, [], ◌∷◌, Option,
  none, some, length, cells, if◌then◌else◌,
}
use mpi_ruby.Ruby.{Value, Bytes, ok}
use mpi_ruby.Mpi.{Call, Code, Buffer, Datatype, IntOp, Env}
use mpi_ruby.Exception.{mpi_exception}
use mpi_ruby.State.{M, pure, ◌>>=◌, ◌>>◌, lift, checked}
use mpi_ruby.Op.Vector.{memcpy}
use mpi_ruby.Comm.Struct.{CommStruct}
use mpi_ruby.Comm.PointToPoint.{marshalled}
use mpi_ruby.Comm.Reduction.{load_results}

-- `datav[i].str` for each element, from `i` on, and `longest`.
unfoldable pub marshal_each : Env → (ℕ → ℤ) → List Value → ℕ → ℤ → M (List Bytes × ℤ)
marshal_each env lengths [] i longest = pure ([], longest)
marshal_each env lengths (x ∷ xs) i longest = do
  str ← marshalled env x
  let longest' = if lt_int longest (succ (lengths i)) then succ (lengths i) else longest
  (strs, n) ← marshal_each env lengths xs (suc i) longest'
  pure (str ∷ strs, n)

-- The copies into the send buffer, from the string `i` on.
unfoldable pub copy_each : (ℕ → ℤ) → ℕ → List Bytes → ℕ → Bytes → M Bytes
copy_each lengths longest [] i send = pure send
copy_each lengths longest (str ∷ strs) i send = do
  send' ← lift (memcpy send (i * longest) str (lengths i))
  copy_each lengths longest strs (suc i) send'

-- `send`, and `longest`.
unfoldable pub send_buffer : Env → (ℕ → ℤ) → List Value → M (Bytes × ℤ)
send_buffer env lengths ary = do
  (strs, longest) ← marshal_each env lengths ary 0 (pos 0)
  let size = pos_part longest
  send ← copy_each lengths size strs 0 (cells (length ary * size) env.junk_char [])
  pure (send, longest)

-- The same for the root; the others have neither.
unfoldable pub root_buffer : Env → (ℕ → ℤ) → List Value → Bool → M (Option Bytes × ℤ)
root_buffer env lengths ary false = pure (none, pos 0)
root_buffer env lengths ary true = do (send, n) ← send_buffer env lengths ary; pure (some send, n)

-- The root marshals the Array. The counts that MPI_Scatter is given are in bytes, the type has
-- `longest` bytes already.
unfoldable pub comm_scatter : Env → CommStruct → (ℕ → ℤ) → List Value → Value → M Value
comm_scatter env mc lengths ary rroot = do
  root ← lift (env.fix2int rroot)
  rank ← checked env (Call.comm_rank mc.comm)
  csize ← checked env (Call.comm_size mc.comm)
  lift (if eq_int (pos (length ary)) csize.out0 then ok tt else mpi_exception Code.err_arg)
  own ← root_buffer env lengths ary (eq_int rank.out0 root)
  size ← checked env (Call.bcast (Buffer.int_at own.1) (pos 1) Datatype.mpi_int root mc.comm)
  let longest = if eq_int rank.out0 root then own.1 else size.out0
  t ← checked env (Call.type_contiguous longest)
  checked env (Call.type_commit t.handle)
  r ←
      checked env
        (Call.scatter own.0 (pos (length ary * pos_part longest)) longest t.handle root mc.comm)
  checked env (Call.type_free t.handle)
  lift (env.marshal_load (cells (pos_part longest) env.junk_char r.bytes))

-- `comm` is the handle that the uninitialised `mc_comm` leads to.
unfoldable pub comm_alltoall : Env → ℕ → (ℕ → ℤ) → List Value → M (List Value)
comm_alltoall env comm lengths sary = do
  csize ← checked env (Call.comm_size comm)
  lift (if eq_int (pos (length sary)) csize.out0 then ok tt else mpi_exception Code.err_arg)
  (send, longest) ← send_buffer env lengths sary
  global ← checked env (Call.allreduce_int IntOp.max longest comm)
  t ← checked env (Call.type_contiguous global.out0)
  checked env (Call.type_commit t.handle)
  r ← checked env (Call.alltoall send (pos (length sary)) t.handle comm)
  let size = pos_part global.out0
  rary ← load_results env size (cells (length sary * size) env.junk_char r.bytes) (length sary) 0
  checked env (Call.type_free t.handle)
  pure rary
