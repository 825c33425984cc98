-- ===== src/Comm/Collective.antt =====
-- mpi_comm.c: the collective operations that are built from messages between two processes, and
-- the broadcast. Ranks and sizes are not negative, as MPI has it. `stray` is what the local variable
-- holds, or `length_right` for `comm_allgather`, that no statement sets.
use mpi_ruby.Base.{
  ℕ, zero, suc, ◌+◌, ◌-◌, ◌%◌, ℤ, pos, pos_part, succ, List, [], ◌∷◌, ◌++◌, Option, none, some,
  cells, get_elem?, if◌then◌else◌, ◌==◌, eq_int, true, false,
}
use mpi_ruby.Ruby.{Value, Bytes, Outcome, raised, type_error, rb_ary_store}
use mpi_ruby.Mpi.{Call, Datatype, Buffer, SendMode, Env}
use mpi_ruby.State.{M, pure, ◌>>=◌, ◌>>◌, lift, checked}
use mpi_ruby.Comm.Struct.{CommStruct}
use mpi_ruby.Comm.PointToPoint.{marshalled, received}

-- Only the root marshals; the others load the first `length` bytes of what arrives.
unfoldable pub comm_bcast : Env → CommStruct → ℤ → Value → Value → M Value
comm_bcast env mc stray obj rroot = do
  root ← lift (env.fix2int rroot)
  r ← checked env (Call.comm_rank mc.comm)
  let is_root = eq_int r.out0 root
  own ← elim is_root [ true ↦ marshalled env obj | false ↦ pure [] ]
  size ← checked env (Call.bcast (Buffer.int_at stray) (pos 1) Datatype.mpi_int root mc.comm)
  let length = if is_root then stray else size.out0
  let data_ = if is_root then own else cells (pos_part (succ length)) env.junk_char []
  d ← checked env (Call.bcast (Buffer.bytes_at data_) (succ length) Datatype.mpi_byte root mc.comm)
  elim is_root [
    | true ↦ pure obj
    | false ↦ lift (env.marshal_load (cells (pos_part length) env.junk_char d.bytes))
  ]

-- The loop of the root, from rank `i` on: it receives the size, then as many `int`s as there are
-- bytes.
unfoldable pub gather_from : Env → CommStruct → ℕ → ℕ → ℕ → List Value → M (List Value)
gather_from env mc zero i rank ary = pure ary
gather_from env mc (suc n) i rank ary =
    let rest = gather_from env mc n (suc i) rank in
    if i == rank then rest ary else (do
      size ← checked env (Call.recv (pos 1) Datatype.mpi_int (pos i) (pos 42) mc.comm)
      lift (env.alloc_n (succ size.out0))
      r ← checked env (Call.recv (succ size.out0) Datatype.mpi_int (pos i) (pos 42) mc.comm)
      obj ← lift (env.marshal_load (received env size.out0 r.bytes))
      rest (rb_ary_store ary i obj))

-- The root has the Array, the others true.
pub data Gathered : Type 0 where
  array : List Value → Gathered
  sent : Gathered

unfoldable pub comm_gather : Env → CommStruct → ℤ → Value → Value → M Gathered
comm_gather env mc stray obj rroot = do
  root ← lift (env.fix2int rroot)
  r ← checked env (Call.comm_rank mc.comm)
  s ← checked env (Call.comm_size mc.comm)
  elim (eq_int r.out0 root) [
    | true ↦ do
      ary ←
          gather_from env mc (pos_part s.out0) 0 (pos_part r.out0)
            (rb_ary_store [] (pos_part root) obj)
      pure (Gathered.array ary)
    | false ↦ do
      data_ ← marshalled env obj
      first ← checked env (
          Call.isend SendMode.standard (Buffer.int_at stray) (pos 1) Datatype.mpi_int root (pos 42)
            mc.comm)
      second ← checked env (
          Call.isend SendMode.standard (Buffer.bytes_at data_) (succ stray) Datatype.mpi_byte root
            (pos 42) mc.comm)
      checked env (Call.waitall (first.handle ∷ second.handle ∷ []))
      pure Gathered.sent
  ]

-- The Array of the dumps; none is the nil that `rb_ary_store` fills up with.
abbrev pub Strings : Type 0
Strings = List (Option Bytes)

unfoldable pub store_string : Strings → ℕ → Bytes → Strings
store_string [] zero v = some v ∷ []
store_string [] (suc i) v = none ∷ store_string [] i v
store_string (x ∷ xs) zero v = some v ∷ xs
store_string (x ∷ xs) (suc i) v = x ∷ store_string xs i v

-- `StringValueCStr(rb_ary_entry(ary, j))`: nil is no string.
unfoldable pub entry_cstr : Env → Strings → ℕ → Outcome Bytes
entry_cstr env ary j = elim (get_elem? ary j) [
  | some (some str) ↦ env.string_value_cstr str
  | _ ↦ raised type_error
]

-- `(csize + j - 1) % csize`
abbrev pub before : ℕ → ℕ → ℕ
before csize j = (csize + j - 1) % csize

-- One round: the string at `j` goes to the right, and what comes from the left is stored at `jnext`.
unfoldable pub allgather_round : Env → CommStruct → ℤ → ℕ → ℕ → ℕ → ℕ → Strings → M Strings
allgather_round env mc stray left right j jnext ary = do
  out ← lift (entry_cstr env ary j)
  size ← checked env (
      Call.sendrecv (Buffer.int_at stray) (pos 1) Datatype.mpi_int (pos right) (pos 43) (pos 1)
        Datatype.mpi_int (pos left) (pos 43) mc.comm)
  lift (env.alloc_n (succ size.out0))
  r ← checked env (
      Call.sendrecv (Buffer.bytes_at (out ++ (0 ∷ []))) (succ stray) Datatype.mpi_byte (pos right)
        (pos 43) (succ size.out0) Datatype.mpi_byte (pos left) (pos 43) mc.comm)
  pure (store_string ary jnext (received env size.out0 r.bytes))

-- The rounds that are left, with `j` as the loop has it.
unfoldable pub allgather_from : Env → CommStruct → ℤ → ℕ → ℕ → ℕ → ℕ → ℕ → Strings → M Strings
allgather_from env mc stray csize left right zero j ary = pure ary
allgather_from env mc stray csize left right (suc n) j ary = do
  ary' ← allgather_round env mc stray left right j (before csize j) ary
  allgather_from env mc stray csize left right n (before csize j) ary'

-- `map!` with Marshal.load. What it raises for nil is not told apart from a TypeError.
unfoldable pub load_all : Env → Strings → M (List Value)
load_all env [] = pure []
load_all env (none ∷ rest) = lift (raised type_error)
load_all env (some str ∷ rest) = do
  obj ← lift (env.marshal_load str)
  objs ← load_all env rest
  pure (obj ∷ objs)

unfoldable pub comm_allgather : Env → CommStruct → ℤ → Value → M (List Value)
comm_allgather env mc stray obj = do
  r ← checked env (Call.comm_rank mc.comm)
  s ← checked env (Call.comm_size mc.comm)
  dump ← lift (env.marshal_dump obj)
  let rank = pos_part r.out0
  let csize = pos_part s.out0
  ary ←
      allgather_from env mc stray csize (before csize rank) ((rank + 1) % csize) (csize - 1) rank
        (store_string [] rank dump)
  load_all env ary
