-- ===== src/State/Cells.antt =====
-- The structs and static tables of mpi_op.c (with ops.rb) and mpi_request.c.
use mpi_ruby.Base.{ℕ, ℤ, List, Option, Bool}
use mpi_ruby.Ruby.{Value, Bytes}
use mpi_ruby.Mpi.{Call}

-- An element of `op_table`, from ops.rb.
pub record OpSlot : Type 0 where
  pub proc : Value
  pub assigned : Bool
  pub resize : ℤ

-- `req_type` and `stage`
pub data ReqType : Type 0 where
  normal psend pbsend pssend prsend receive : ReqType

pub data Stage : Type 0 where
  tx_size tx_data : Stage

-- What `buf` points at: nothing, memory from ALLOC_N, the inside of a Ruby string, or anywhere.
pub data Buf : Type 0 where
  null : Buf
  owned : Bytes → Buf
  borrowed : Bytes → Buf
  wild : Buf

-- `struct mpi_request`; `handle` is `*req`.
pub record Request : Type 0 where
  pub handle : ℕ
  pub comm : ℕ
  pub type : ReqType
  pub obj : Value
  pub peer : ℤ
  pub tag : ℤ
  pub stage : Stage
  pub buflen : ℤ
  pub buf : Buf

-- An element of `rlist`: NULL, a request by its address, or a cell that REALLOC_N added and
-- nothing wrote.
pub data Entry : Type 0 where
  empty : Entry
  entry : ℕ → Entry
  unwritten : Entry

-- `struct mpi_attr_val`: what `data` points at is the inside of a Ruby string, or memory of its own.
pub record AttrVal : Type 0 where
  pub len : ℤ
  pub data_ : Bytes

pub record World : Type 0 where
  -- the calls of MPI so far, newest first
  pub log : List Call
  pub op_table : List OpSlot
  pub capacity : ℕ
  pub rlist : List Entry
  -- the structs by address; none after `free`
  pub heap : List (Option Request)
  -- the attribute structs by address
  pub attrs : List AttrVal
