-- ===== src/Mpi.antt =====
-- The MPI library as the C files see it: its return codes, one constructor for each function that
-- they call, with the arguments passed in, and what comes back. MPI itself is a parameter, `Env`.
use mpi_ruby.Base.{ℕ, ℤ, Bool, List, String, Option}
use mpi_ruby.Ruby.{Value, Bytes, Outcome, RubyError}

-- The return codes that mpi_exception.c names. Their numbers are those of mpi.h, which differ from
-- library to library; that they are distinct is what the `switch` needs.
pub data Code : Type 0 where
  success : Code
  err_buffer err_count err_type err_tag err_comm err_rank err_request err_root : Code
  err_group err_op err_topology err_dims err_arg err_unknown err_truncate : Code
  err_other err_intern err_pending err_in_status : Code
  unlisted : ℕ → Code

pub data Datatype : Type 0 where
  mpi_int mpi_byte : Datatype
  -- a handle from MPI_Type_contiguous
  derived : ℕ → Datatype

-- What a buffer argument points at: an `int`, bytes, or the pointer variable itself.
pub data Buffer : Type 0 where
  int_at : ℤ → Buffer
  bytes_at : Bytes → Buffer
  pointer_at : Buffer

-- MPI_Send, MPI_Bsend, MPI_Ssend, MPI_Rsend, and the same four of the non-blocking kind.
pub data SendMode : Type 0 where
  standard buffered synchronous ready : SendMode

-- The functions of mpi_op.c that MPI_Op_create is given for the predefined operations.
pub data PredefFn : Type 0 where
  max min sum prod land band lor bor lxor bxor maxloc minloc : PredefFn

-- MPI_MAX, MPI_MIN, MPI_LAND
pub data IntOp : Type 0 where
  max min land : IntOp

-- MPI_Reduce with its count and root, MPI_Allreduce and MPI_Scan with their count, and
-- MPI_Reduce_scatter with its receive counts.
pub data Reduction : Type 0 where
  reduce : ℤ → ℤ → Reduction
  allreduce scan : ℤ → Reduction
  reduce_scatter : List ℤ → Reduction

-- `Call.send mode buf count dtype dest tag comm`, `Call.recv count dtype src tag comm`, and so on:
-- the arguments in C's order, without those through which MPI writes. Ranks, tags, colours and
-- sizes are C `int`s; a handle is a number.
pub data Call : Type 0 where
  send isend : SendMode → Buffer → ℤ → Datatype → ℤ → ℤ → ℕ → Call
  recv irecv : ℤ → Datatype → ℤ → ℤ → ℕ → Call
  sendrecv : Buffer → ℤ → Datatype → ℤ → ℤ → ℤ → Datatype → ℤ → ℤ → ℕ → Call
  probe iprobe : ℤ → ℤ → ℕ → Call
  wait test cancel start request_free : ℕ → Call
  waitall startall : List ℕ → Call
  buffer_detach : Call
  buffer_attach : ℤ → Call
  comm_rank comm_size comm_group comm_dup comm_test_inter comm_remote_size : ℕ → Call
  comm_remote_group comm_free barrier : ℕ → Call
  comm_create comm_compare : ℕ → ℕ → Call
  comm_split : ℕ → ℤ → ℤ → Call
  intercomm_create : ℕ → ℤ → ℕ → ℤ → ℤ → Call
  intercomm_merge abort : ℕ → ℤ → Call
  cart_create : ℕ → ℕ → List ℤ → List ℤ → ℤ → Call
  graph_create : ℕ → ℕ → List ℤ → List ℤ → ℤ → Call
  topo_test graphdims_get cartdim_get : ℕ → Call
  graph_get cart_coords graph_neighbors cart_shift : ℕ → ℤ → ℤ → Call
  cart_get graph_neighbors_count : ℕ → ℤ → Call
  cart_rank cart_sub : ℕ → List ℤ → Call
  cart_map graph_map : ℕ → ℕ → List ℤ → List ℤ → Call
  op_create : ℤ → ℤ → Call
  op_create_predef : PredefFn → ℤ → Call
  op_free : ℕ → Call
  group_free group_size group_rank : ℕ → Call
  type_size : Datatype → Call
  group_compare group_union group_intersection group_difference : ℕ → ℕ → Call
  group_translate_ranks : ℕ → ℕ → List ℤ → ℕ → Call
  group_incl group_excl group_range_incl group_range_excl : ℕ → ℕ → List ℤ → Call
  -- whether the copy function is `keyval_copy_uniq`
  keyval_create : Bool → Call
  keyval_free : ℤ → Call
  attr_put : ℕ → ℤ → ℕ → Call
  attr_get attr_delete : ℕ → ℤ → Call
  dims_create : ℤ → ℕ → List ℤ → Call
  bcast : Buffer → ℤ → Datatype → ℤ → ℕ → Call
  test_cancelled : ℤ → ℤ → Call
  type_contiguous : ℤ → Call
  type_commit type_free : ℕ → Call
  -- MPI_Allreduce of one `int`
  allreduce_int : IntOp → ℤ → ℕ → Call
  -- with the send buffer, the handles of the datatype and the operation
  reduction : Reduction → Bytes → ℕ → ℕ → ℕ → Call
  -- MPI_Scatter: the send buffer where there is one, the send count, the receive count, the type
  scatter : Option Bytes → ℤ → ℤ → ℕ → ℤ → ℕ → Call
  alltoall : Bytes → ℤ → ℕ → ℕ → Call
  waitany waitsome testany testall testsome : List ℕ → Call
  initialized processor_name : Call

-- MPI_Status
pub record Status : Type 0 where
  pub source : ℤ
  pub tag : ℤ

-- What a call returns and writes: the code, two `int`s, up to three `int` arrays, a handle, the
-- receive buffer as it stands afterwards, and a status. A call uses the fields that its
-- out-parameters name, in their order. `arrived` is the `int` that reached the buffer of a pending
-- receive which the call completed; if that buffer holds bytes they are in `bytes`.
pub record Reply : Type 0 where
  pub rv : Code
  pub out0 : ℤ
  pub out1 : ℤ
  pub array0 : List ℤ
  pub array1 : List ℤ
  pub array2 : List ℤ
  pub handle : ℕ
  pub bytes : Bytes
  pub arrived : Option ℤ
  pub status : Status
  -- for a call on several requests: their handles and the statuses as they are afterwards, and what
  -- reached the buffer of each, an `int` or bytes
  pub handles : List ℕ
  pub statuses : List Status
  pub arrivals : List (Option ℤ)
  pub payloads : List (Option Bytes)

-- MPI calls the function of an operation: `invec`, `*len`, `inoutvec`.
pub record Application : Type 0 where
  pub invec : Bytes
  pub len : ℕ
  pub inoutvec : Bytes

-- Everything that stands outside the repository.
pub record Env : Type 0 where
  -- MPI: what a call returns may depend on all the calls before it (newest first), and on the call.
  pub reply : List Call → Call → Reply
  -- how MPI calls the function of the operation in this process during a reduction
  pub applied : List Call → Call → List Application
  -- what a reduction writes to the receive buffer, from the vectors as that function leaves them
  pub delivered : List Call → Call → List Bytes → Bytes
  -- constants of mpi.h
  pub mpi_any_tag : ℤ
  pub mpi_any_source : ℤ
  pub mpi_undefined : ℤ
  pub mpi_graph : ℤ
  pub mpi_cart : ℤ
  pub mpi_ident : ℤ
  pub mpi_congruent : ℤ
  pub mpi_similar : ℤ
  pub request_null : ℕ
  pub comm_world : ℕ
  pub comm_self : ℕ
  -- `sizeof(int)`
  pub int_size : ℕ
  -- Ruby: FIX2INT, Marshal.dump, Marshal.load, StringValueCStr, ALLOC_N(char, n)
  pub fix2int : Value → Outcome ℤ
  pub marshal_dump : Value → Outcome Bytes
  pub marshal_load : Bytes → Outcome Value
  pub string_value_cstr : Bytes → Outcome Bytes
  pub alloc_n : ℤ → Outcome (Unit {0})
  -- what `rb_str_new2(NULL)` raises
  pub null_string : RubyError
  -- what `rb_str_new` raises for a negative length
  pub negative_size : RubyError
  -- what `Data_Get_Struct` raises for a class object
  pub not_data : RubyError
  -- `rb_funcall(receiver, rb_intern(name), 1, arg)`, and `rb_funcall(proc, id_call, 2, a, b)`
  pub funcall : Value → String → Value → Outcome Value
  pub proc_call : Value → Value → Value → Outcome Value
  -- `rb_ary_entry` of an object that Marshal.load made
  pub ary_entry : Value → ℕ → Outcome Value
  -- a VALUE as the machine word that it is, and back
  pub word_of_value : Value → ℤ
  pub value_of_word : ℤ → Value
  -- what a cell holds that nothing wrote
  pub junk_int : ℤ
  pub junk_char : ℕ
